-- ===== src/FileStorage/Commands/Write/Settlement.antt =====
-- How a write command ends (file_storage_adapter/write_handler.py, `_handle`).
use jet_core_service_bus.Prelude.{ap, subst, ◌∙◌, ◌≡◌, inl, inr}
use jet_core_service_bus.Python.Exception.{ok, err}
use jet_core_service_bus.Python.Exec.{lift, ◌>>=◌}
use jet_core_service_bus.Python.Exec.Hoare.{
  lift-Ends, weaken-Triple, Triple, Ends, bind-Triple, except_return-Ends,
}
use jet_core_service_bus.Python.Json.{JsonModule}
use jet_core_service_bus.Python.PurePath.{PosixPath, Within}
use jet_core_service_bus.Jetcore.Bus.{Bus}
use jet_core_service_bus.Jetcore.BusClient.{ReceivedEvent}
use jet_core_service_bus.FileStorage.FileSystem.{FileSystem}
use jet_core_service_bus.FileStorage.Paths.Containment.{resolve_within-Ends}
use jet_core_service_bus.FileStorage.Paths.{resolve_within}
use jet_core_service_bus.FileStorage.Payloads.{WriteRequest, decode_write_requested}
use jet_core_service_bus.Adapter.{
  is_path_traversal-eq, is_malformed-eq, is_path_traversal, is_malformed,
}
use jet_core_service_bus.FileStorage.Commands.Write.{Shared, inner, store, write_within, handle}
use jet_core_service_bus.FileStorage.Commands.Write.Protocol.{Protocol, inner-Ends, inner-Triple}
use jet_core_service_bus.FileStorage.Commands.Write.Outcome.{IsRefused, Finished, Open}
use jet_core_service_bus.FileStorage.Commands.Write.Storing.{store-Triple}

module _ {S : Type 0} (J : JsonModule) (F : FileSystem S) (B : Bus S) (watch_dir r : PosixPath)
    (event : ReceivedEvent) (p : Protocol F B watch_dir r event) (c : Shared S) where
  abbrev Received : Shared S → Type 0
  Received c' = p.Received c'.state

  abbrev Done : Shared S → Type 0
  Done = Finished J F B watch_dir r event p c

  abbrev Undone : Shared S → Type 0
  Undone = Open J F B watch_dir r event p c

  reject-Triple :
      IsRefused J F B watch_dir r event p c
      → Triple Received (inner (B.ack event)) (λ _. Done) (λ _. Undone)
  reject-Triple refused =
      weaken-Triple (inner (B.ack event)) (λ _ _ rejected. inl (refused, rejected)) (λ _ _ q. inl q)
        (inner-Triple p.Received (λ _. p.Rejected) (λ _. p.Received) (B.ack event) p.reject)

  resolved-settles :
      (request : WriteRequest) (target : PosixPath)
      → decode_write_requested J event.payload ≡ ok request
      → Triple
          (λ c'.
            Within r target
            × ((resolve_within F watch_dir request.path c.state).0 ≡ ok target)
            × Received c')
          (do
            existed_before ← inner (F.exists target)
            store J F B watch_dir request event target existed_before)
          (λ _. Done)
          (λ _. Undone)
  resolved-settles request target decoded c' (within, named, h) =
      bind-Triple Received (λ existed c''. p.Looked target existed c''.state) (λ _. Done)
        (λ _. Undone) (inner (F.exists target)) (store J F B watch_dir request event target)
        (weaken-Triple (inner (F.exists target)) (λ _ _ q. q) (λ _ _ q. inl q)
          (inner-Triple p.Received (p.Looked target) (λ _. p.Received) (F.exists target)
            (p.exists target within)))
        (λ existed.
          store-Triple J F B watch_dir r event p c request target (decoded, named) existed within)
        c' h

  write_within-settles :
      (request : WriteRequest)
      → decode_write_requested J event.payload ≡ ok request
      → Received c
      → Ends (λ _. Done) (λ _. Undone) (write_within J F B watch_dir request event c)
  unfolding write_within
  write_within-settles request decoded h =
      let resolution = resolve_within F watch_dir request.path in
      except_return-Ends
        (λ target c'. Within r target × ((resolution c.state).0 ≡ ok target) × Received c')
        (λ _. Done) (λ e c'. ((resolution c.state).0 ≡ err e) × Received c') (λ _. Undone)
        (inner resolution) is_path_traversal (inner (B.ack event)) _
        (λ e caught c' (raised, q).
          reject-Triple (inr (request, decoded, raised ∙ ap err (is_path_traversal-eq e caught))) c'
            q)
        (λ e c' passed q. inl q.1) (λ target. resolved-settles request target decoded) c
        (inner-Ends
          (λ target s'. Within r target × ((resolution c.state).0 ≡ ok target) × p.Received s')
          (λ e s'. ((resolution c.state).0 ≡ err e) × p.Received s') resolution c
          (resolve_within-Ends F p.Received p.resolve watch_dir r p.rooted request.path c.state h))

  -- Let a command be received, and let the calls lead from stage to stage as the protocol says,
  -- with files written only within the root. When `handle` returns, the command was refused and
  -- rejected; or it was completed, after the content that it holds was written to the path that its
  -- own path resolves to, and the report of the request, of whether that path had existed and of
  -- the time that was read was published; or it was given back after an `OSError` at that path.
  -- When `handle` raises, the command is at a stage before its settlement.
  pub handle-settles :
      p.Received c.state → Ends (λ _. Done) (λ _. Undone) (handle J F B watch_dir event c)
  unfolding handle
  handle-settles h =
      except_return-Ends
        (λ request c'. (decode_write_requested J event.payload ≡ ok request) × (c ≡ c')) (λ _. Done)
        (λ e c'. (decode_write_requested J event.payload ≡ err e) × (c ≡ c')) (λ _. Undone)
        (lift (decode_write_requested J event.payload)) is_malformed (inner (B.ack event))
        (λ request. write_within J F B watch_dir request event)
        (λ e caught c' (failed, same).
          subst (λ x. Ends (λ _. Done) (λ _. Undone) (inner (B.ack event) x)) same
            (reject-Triple (inl (failed ∙ ap err (is_malformed-eq e caught))) c h))
        (λ e c' passed (failed, same). inl (subst Received same h))
        (λ request c' (decoded, same).
          subst (λ x. Ends (λ _. Done) (λ _. Undone) (write_within J F B watch_dir request event x))
            same (write_within-settles request decoded h))
        c (lift-Ends (decode_write_requested J event.payload) c)
