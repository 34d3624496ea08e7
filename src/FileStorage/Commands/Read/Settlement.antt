-- ===== src/FileStorage/Commands/Read/Settlement.antt =====
-- How a read command ends (file_storage_adapter/read_handler.py, `_handle`).
use jet_core_service_bus.Prelude.{
  ap, subst, ◌∙◌, none, some, Option, ◌≡◌, Bool, true, false, String, inl, inr,
}
use jet_core_service_bus.Python.Exception.{is_os_error, ok, err}
use jet_core_service_bus.Python.Exec.{lift, ◌>>=◌, always}
use jet_core_service_bus.Python.Exec.Hoare.{
  lift-Ends, weaken-Triple, Triple, Ends, bind-Triple, except_return-Ends,
}
use jet_core_service_bus.Python.Json.{Bytes, JsonModule}
use jet_core_service_bus.Python.PurePath.{PosixPath, Within}
use jet_core_service_bus.Jetcore.Bus.{Bus}
use jet_core_service_bus.Jetcore.BusClient.{ReceivedEvent}
use jet_core_service_bus.FileStorage.FileSystem.{FileSystem}
use jet_core_service_bus.FileStorage.Paths.Containment.{resolve_within-Ends}
use jet_core_service_bus.FileStorage.Paths.{resolve_within}
use jet_core_service_bus.FileStorage.Payloads.{decode_path_only_request}
use jet_core_service_bus.Adapter.{
  is_path_traversal-eq, is_malformed-eq, is_path_traversal, is_malformed,
}
use jet_core_service_bus.FileStorage.Commands.Read.{
  not_found, report_content, read_target, read_within, handle,
}
use jet_core_service_bus.FileStorage.Commands.Read.Protocol.{
  ReadProtocol, read_report, IsPath, IsUnreadable, ReadSettled, ReadOpen,
}

module _ {S : Type 0} (J : JsonModule) (F : FileSystem S) (B : Bus S) (watch_dir r : PosixPath)
    (event : ReceivedEvent) (p : ReadProtocol F B watch_dir r event) (before : S) where
  abbrev Done : S → Type 0
  Done = ReadSettled J F B watch_dir r event p before

  abbrev Undone : S → Type 0
  Undone = ReadOpen J F B watch_dir r event p before

  module _ (path : String) (target : PosixPath)
      (command : IsPath J F B watch_dir r event p before path target) where
    report-settles :
        (told : Option Bytes) (now : String)
        → Triple
            (p.Stamped target told now)
            (do _ ← B.publish (read_report J path told now event); B.ack event)
            (λ _. Done)
            (λ _. Undone)
    report-settles told now =
        let sent = read_report J path told now event in
        bind-Triple (p.Stamped target told now) (λ _. p.Published target told now sent) (λ _. Done)
          (λ _. Undone) (B.publish sent) (λ _. B.ack event)
          (weaken-Triple (B.publish sent) (λ _ _ q. q)
            (λ _ _ q. inr (inr (path, target, command, told, now, inl q)))
            (p.publish target told now sent))
          λ _.
            weaken-Triple (B.ack event) (λ _ _ q. inr (inl (path, target, command, told, now, q)))
              (λ _ _ q. inr (inr (path, target, command, told, now, inr q)))
              (p.complete target told now sent)

    not_found-settles :
        Triple
          (p.Looked target false)
          (not_found J F B watch_dir path event)
          (λ _. Done)
          (λ _. Undone)
    unfolding not_found
    not_found-settles =
        bind-Triple (p.Looked target false) (p.Stamped target none) (λ _. Done) (λ _. Undone)
          (always F.now_iso) _ (λ s h. p.now_missing target s h) (report-settles none)

    report_content-settles :
        (content : Bytes)
        → Triple
            (p.HasRead target content)
            (report_content J F B watch_dir path event content)
            (λ _. Done)
            (λ _. Undone)
    unfolding report_content
    report_content-settles content =
        bind-Triple (p.HasRead target content) (p.Stamped target (some content)) (λ _. Done)
          (λ _. Undone) (always F.now_iso) _ (λ s h. p.now_read target content s h)
          (report-settles (some content))

    read_target-settles :
        (there : Bool)
        → Within r target
        → Triple
            (p.Looked target there)
            (read_target J F B watch_dir path event target there)
            (λ _. Done)
            (λ _. Undone)
    unfolding read_target
    read_target-settles false within s h = not_found-settles s h
    read_target-settles true within s h =
        except_return-Ends (p.HasRead target) (λ _. Done) (p.Failed target) (λ _. Undone)
          (F.read_bytes target) is_os_error (B.nak event)
          (report_content J F B watch_dir path event)
          (λ e os.
            weaken-Triple (B.nak event) (λ _ _ q. inr (inr (path, target, command, e, os, q)))
              (λ _ _ q. inr (inl (path, target, command, e, q))) (p.retry target e os))
          (λ e s' passed q. inr (inl (path, target, command, e, q))) report_content-settles s
          (p.read_bytes target within s h)

  reject-settles :
      IsUnreadable J F B watch_dir r event p before
      → Triple p.Received (B.ack event) (λ _. Done) (λ _. Undone)
  reject-settles refused =
      weaken-Triple (B.ack event) (λ _ _ q. inl (refused, q)) (λ _ _ q. inl q) p.reject

  read_within-settles :
      (path : String)
      → decode_path_only_request J false event.payload ≡ ok path
      → p.Received before
      → Ends (λ _. Done) (λ _. Undone) (read_within J F B watch_dir path event before)
  unfolding read_within
  read_within-settles path decoded h =
      let resolution = resolve_within F watch_dir path in
      except_return-Ends
        (λ target s. Within r target × ((resolution before).0 ≡ ok target) × p.Received s)
        (λ _. Done) (λ e s. ((resolution before).0 ≡ err e) × p.Received s) (λ _. Undone) resolution
        is_path_traversal (B.ack event) _
        (λ e caught s (raised, q).
          reject-settles (inr (path, decoded, raised ∙ ap err (is_path_traversal-eq e caught))) s q)
        (λ e s passed q. inl q.1)
        (λ target s (within, named, q).
          bind-Triple p.Received (p.Looked target) (λ _. Done) (λ _. Undone) (F.is_file target)
            (read_target J F B watch_dir path event target)
            (weaken-Triple (F.is_file target) (λ _ _ z. z) (λ _ _ z. inl z)
              (p.is_file target within))
            (λ there. read_target-settles path target (decoded, named) there within) s q)
        before (resolve_within-Ends F p.Received p.resolve watch_dir r p.rooted path before h)

  -- Let a command be received, and let the calls lead from stage to stage as the protocol says,
  -- with files read only within the root. When `handle` returns, the command was rejected and is
  -- malformed or its path leads out of the watched directory; or it was completed after the report
  -- of what its path resolves to was published, the content that was read there or, where no file
  -- is, that there is none; or it was given back after an `OSError` at that path. When `handle`
  -- raises, the command is at a stage before its settlement.
  pub handle-ReadSettled :
      p.Received before → Ends (λ _. Done) (λ _. Undone) (handle J F B watch_dir event before)
  unfolding handle
  handle-ReadSettled h =
      except_return-Ends
        (λ path s. (decode_path_only_request J false event.payload ≡ ok path) × (before ≡ s))
        (λ _. Done) (λ e s. (decode_path_only_request J false event.payload ≡ err e) × (before ≡ s))
        (λ _. Undone) (lift (decode_path_only_request J false event.payload)) is_malformed
        (B.ack event) (λ path. read_within J F B watch_dir path event)
        (λ e caught s (failed, same).
          reject-settles (inl (failed ∙ ap err (is_malformed-eq e caught))) s
            (subst p.Received same h))
        (λ e s passed (failed, same). inl (subst p.Received same h))
        (λ path s (decoded, same).
          subst (λ x. Ends (λ _. Done) (λ _. Undone) (read_within J F B watch_dir path event x))
            same (read_within-settles path decoded h))
        before (lift-Ends (decode_path_only_request J false event.payload) before)
