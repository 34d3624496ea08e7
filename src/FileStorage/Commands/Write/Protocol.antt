-- ===== src/FileStorage/Commands/Write/Protocol.antt =====
-- The stages that the handling of one write command goes through (file_storage_adapter/write_handler.py).
use jet_core_service_bus.Prelude.{◌≡◌, Bool, String, true}
use jet_core_service_bus.Python.Exception.{Exception, Result, ok, err}
use jet_core_service_bus.Python.Exec.{Exec, always}
use jet_core_service_bus.Python.Exec.Keeps.{Keeps}
use jet_core_service_bus.Python.Exec.Hoare.{Triple, Ends}
use jet_core_service_bus.Python.Json.{Bytes}
use jet_core_service_bus.Python.PurePath.{PosixPath, Within, parent}
use jet_core_service_bus.Jetcore.Bus.{Bus}
use jet_core_service_bus.Jetcore.BusClient.{ReceivedEvent}
use jet_core_service_bus.Jetcore.BusClient.Sealing.{Publication}
use jet_core_service_bus.FileStorage.FileSystem.{FileSystem}
use jet_core_service_bus.FileStorage.Commands.Write.{Shared, inner, is_os_error}

-- What can be told of a state of the world while one command is handled: it was received; a path
-- was looked at, with the answer whether it exists; the directory above it was made; this content was
-- written to it; the time was read; a report was published. Making or writing may fail instead. In
-- the end the command was rejected, completed, or given back for a redelivery, after a failure that
-- is an `OSError` and no other. Every call is told where it may stand and what it leads to; a path
-- may be used only within the root `r`.
pub record Protocol {S : Type 0} (F : FileSystem S) (B : Bus S) (watch_dir r : PosixPath)
    (event : ReceivedEvent) : Type 1 where
  pub Received : S → Type 0
  pub Looked : PosixPath → Bool → S → Type 0
  pub Made : PosixPath → Bool → S → Type 0
  pub Written : PosixPath → Bool → Bytes → S → Type 0
  pub Stamped : PosixPath → Bool → Bytes → String → S → Type 0
  pub Published : PosixPath → Bool → Bytes → String → Publication → S → Type 0
  pub Completed : PosixPath → Bool → Bytes → String → Publication → S → Type 0
  pub Failed : PosixPath → Exception → S → Type 0
  pub Rejected : S → Type 0
  pub Retried : PosixPath → Exception → S → Type 0
  pub rooted : (s : S) → Received s → (F.resolve watch_dir s).0 ≡ ok r
  pub resolve : (p : PosixPath) → Keeps Received (F.resolve p)
  pub exists :
      (p : PosixPath) → Within r p → Triple Received (F.exists p) (Looked p) (λ _. Received)
  pub mkdir :
      (p : PosixPath) (existed : Bool)
      → Within r p
      → Triple (Looked p existed) (F.mkdir (parent p)) (λ _. Made p existed) (Failed p)
  pub write_bytes :
      (p : PosixPath) (existed : Bool) (content : Bytes)
      → Within r p
      → Triple
          (Made p existed)
          (F.write_bytes p content)
          (λ _. Written p existed content)
          (Failed p)
  pub monotonic :
      (p : PosixPath) (existed : Bool) (content : Bytes)
      → Keeps (Written p existed content) (always F.monotonic)
  pub now_iso :
      (p : PosixPath) (existed : Bool) (content : Bytes) (s : S)
      → Written p existed content s
      → Stamped p existed content (F.now_iso s).0 (F.now_iso s).1
  pub publish :
      (p : PosixPath) (existed : Bool) (content : Bytes) (now : String) (sent : Publication)
      → Triple
          (Stamped p existed content now)
          (B.publish sent)
          (λ _. Published p existed content now sent)
          (λ _. Stamped p existed content now)
  pub complete :
      (p : PosixPath) (existed : Bool) (content : Bytes) (now : String) (sent : Publication)
      → Triple
          (Published p existed content now sent)
          (B.ack event)
          (λ _. Completed p existed content now sent)
          (λ _. Published p existed content now sent)
  pub reject : Triple Received (B.ack event) (λ _. Rejected) (λ _. Received)
  pub retry :
      (p : PosixPath) (e : Exception)
      → is_os_error e ≡ true
      → Triple (Failed p e) (B.nak event) (λ _. Retried p e) (λ _. Failed p e)

module _ {S A : Type 0} (Q : A → S → Type 0) (E : Exception → S → Type 0) where
  pub inner-Ends :
      (m : Exec S A) (c : Shared S)
      → Ends Q E (m c.state)
      → Ends {S = Shared S} (λ a c'. Q a c'.state) (λ e c'. E e c'.state) (inner m c)
  unfolding inner
  inner-Ends m c h = ends (m c.state).0 (m c.state).1 h
    where
      ends :
          (r : Result A) (s : S)
          → Ends Q E (r, s)
          → Ends {S = Shared S}
              (λ a c'. Q a c'.state)
              (λ e c'. E e c'.state)
              (r, record c { state = s })
      ends (ok a) s q = q
      ends (err e) s q = q

module _ {S A : Type 0} (P : S → Type 0) (Q : A → S → Type 0) (E : Exception → S → Type 0) where
  pub inner-Triple :
      (m : Exec S A)
      → Triple P m Q E
      → Triple (λ (c : Shared S). P c.state) (inner m) (λ a c. Q a c.state) (λ e c. E e c.state)
  inner-Triple m h c p = inner-Ends Q E m c (h c.state p)
