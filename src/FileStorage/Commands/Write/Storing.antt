-- ===== src/FileStorage/Commands/Write/Storing.antt =====
-- What follows once the path of a write command is resolved (file_storage_adapter/write_handler.py).
use jet_core_service_bus.FileStorage.RecentWrites.{RecentWrites}
use jet_core_service_bus.Prelude.{none, some, Option, ◌≡◌, Bool, String, inl, inr, true}
use jet_core_service_bus.Python.Exception.{is_os_error, Exception}
use jet_core_service_bus.Python.Exec.{always}
use jet_core_service_bus.Python.Exec.Hoare.{weaken-Triple, Triple, bind-Triple, except_return-Ends}
use jet_core_service_bus.Python.Json.{JsonModule}
use jet_core_service_bus.Python.PurePath.{PosixPath, Within, parent}
use jet_core_service_bus.Jetcore.Bus.{Bus}
use jet_core_service_bus.Jetcore.BusClient.{ReceivedEvent}
use jet_core_service_bus.FileStorage.FileSystem.{FileSystem}
use jet_core_service_bus.FileStorage.Payloads.{WriteRequest}
use jet_core_service_bus.FileStorage.Commands.Write.{
  Shared, inner, write_file, completed, announce, finish, store, mark_written, mark_in,
  set_recent_writes,
}
use jet_core_service_bus.FileStorage.Commands.Write.Protocol.{Protocol, inner-Triple}
use jet_core_service_bus.FileStorage.Commands.Write.Outcome.{IsCommand, Finished, Open}

module _ {S : Type 0} (J : JsonModule) (F : FileSystem S) (B : Bus S) (watch_dir r : PosixPath)
    (event : ReceivedEvent) (p : Protocol F B watch_dir r event) (c : Shared S)
    (request : WriteRequest) (target : PosixPath)
    (command : IsCommand J F B watch_dir r event p c request target) where
  abbrev Done : Shared S → Type 0
  Done = Finished J F B watch_dir r event p c

  abbrev Undone : Shared S → Type 0
  Undone = Open J F B watch_dir r event p c

  module _ (existed : Bool) where
    abbrev Written : Shared S → Type 0
    Written c' = p.Written target existed request.content c'.state

    mark_in-Triple :
        (o : Option RecentWrites) → Triple Written (mark_in F target o) (λ _. Written) (λ _. Undone)
    unfolding mark_in inner set_recent_writes
    mark_in-Triple none c' h = h
    mark_in-Triple (some w) c' h = p.monotonic target existed request.content c'.state h

    announce-Triple :
        (now : String)
        → Triple
            (λ (c' : Shared S). p.Stamped target existed request.content now c'.state)
            (announce J F B watch_dir request event existed now)
            (λ _. Done)
            (λ _. Undone)
    unfolding announce
    announce-Triple now =
        let sent = completed J request existed event now in
        let Stamped : S → Type 0 = p.Stamped target existed request.content now in
        let Published : S → Type 0 = p.Published target existed request.content now sent in
        bind-Triple (λ c'. Stamped c'.state) (λ _ c'. Published c'.state) (λ _. Done) (λ _. Undone)
          (inner (B.publish sent)) (λ _. inner (B.ack event))
          (weaken-Triple (inner (B.publish sent)) (λ _ _ q. q)
            (λ _ _ q. inr (inr (request, target, command, existed, now, inl q)))
            (inner-Triple Stamped (λ _. Published) (λ _. Stamped) (B.publish sent)
              (p.publish target existed request.content now sent)))
          λ _.
            weaken-Triple (inner (B.ack event))
              (λ _ _ q. inr (inl (request, target, existed, now, command, q)))
              (λ _ _ q. inr (inr (request, target, command, existed, now, inr q)))
              (inner-Triple Published (λ _. p.Completed target existed request.content now sent)
                (λ _. Published) (B.ack event) (p.complete target existed request.content now sent))

    finish-Triple :
        Triple Written
          (finish J F B watch_dir request event target existed)
          (λ _. Done)
          (λ _. Undone)
    unfolding finish mark_written inner
    finish-Triple =
        bind-Triple Written (λ _. Written) (λ _. Done) (λ _. Undone) (mark_written F target) _
          (λ c'. mark_in-Triple c'.recent_writes c')
          λ _.
            bind-Triple Written (λ now c'. p.Stamped target existed request.content now c'.state)
              (λ _. Done) (λ _. Undone) (inner (always F.now_iso))
              (announce J F B watch_dir request event existed)
              (λ c' h. p.now_iso target existed request.content c'.state h) announce-Triple

    write_file-Triple :
        Within r target
        → Triple
            (p.Looked target existed)
            (write_file F target request.content)
            (λ _. p.Written target existed request.content)
            (p.Failed target)
    unfolding write_file
    write_file-Triple within =
        bind-Triple (p.Looked target existed) (λ _. p.Made target existed)
          (λ _. p.Written target existed request.content) (p.Failed target)
          (F.mkdir (parent target)) (λ _. F.write_bytes target request.content)
          (p.mkdir target existed within) λ _. p.write_bytes target existed request.content within

    give_back-Triple :
        (e : Exception)
        → is_os_error e ≡ true
        → Triple
            (λ (c' : Shared S). p.Failed target e c'.state)
            (inner (B.nak event))
            (λ _. Done)
            (λ _. Undone)
    give_back-Triple e os =
        weaken-Triple (inner (B.nak event))
          (λ _ _ q. inr (inr (request, target, e, command, os, q)))
          (λ _ _ q. inr (inl (request, target, command, e, q)))
          (inner-Triple (p.Failed target e) (λ _. p.Retried target e) (λ _. p.Failed target e)
            (B.nak event) (p.retry target e os))

    pub store-Triple :
        Within r target
        → Triple
            (λ (c' : Shared S). p.Looked target existed c'.state)
            (store J F B watch_dir request event target existed)
            (λ _. Done)
            (λ _. Undone)
    unfolding store
    store-Triple within c' h =
        except_return-Ends (λ _. Written) (λ _. Done) (λ e s. p.Failed target e s.state)
          (λ _. Undone) (inner (write_file F target request.content)) is_os_error
          (inner (B.nak event)) (λ _. finish J F B watch_dir request event target existed)
          give_back-Triple (λ e s passed q. inr (inl (request, target, command, e, q)))
          (λ _. finish-Triple) c'
          (inner-Triple (p.Looked target existed) (λ _. p.Written target existed request.content)
            (p.Failed target) (write_file F target request.content) (write_file-Triple within) c' h)
