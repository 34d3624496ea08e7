-- ===== src/Jetcore/BusClient/Connection/Closing.antt =====
-- What `close` leaves behind (bus_client.py).
use jet_core_service_bus.Prelude.{
  ◌≡◌, refl, Option, none, some, List, [], ◌∷◌, ◌∙◌, ap, Option-cases, inl, inr, ap,
}
use jet_core_service_bus.Python.Exception.{Result, Exception, Result, ok, err}
use jet_core_service_bus.Python.Exec.{◌>>=◌}
use jet_core_service_bus.Python.Dict
use jet_core_service_bus.Jetcore.Registry.Cache.{RecipientCache, stop}
use jet_core_service_bus.Jetcore.BusClient.{Outside, Client, outside}
use jet_core_service_bus.Jetcore.BusClient.Connection.{stop_all, close}

-- The exception of the first cache whose task has ended by one
unfoldable pub first_broken : List RecipientCache → Option Exception
first_broken [] = none
first_broken (cache ∷ caches) = elim cache.failure [ none ↦ first_broken caches | some e ↦ some e ]

module _ (O : Outside) where
  stop_all-first_broken :
      (caches : List RecipientCache) (c : Client O)
      → stop_all O caches c
        ≡ (elim (first_broken caches) [ none ↦ (ok tt, c) | some e ↦ (err e, c) ])
  unfolding stop_all first_broken stop
  stop_all-first_broken [] c = refl
  stop_all-first_broken (cache ∷ caches) c = elim (Option-cases cache.failure) [
    | inl fine ↦ rw fine (stop_all-first_broken caches c)
    | inr (e, broken) ↦ rw broken refl
  ]

  -- `close` ends the heartbeats; when no recipient cache has failed it is the closing of the
  -- connection, and otherwise it raises the exception of the first that has, and leaves the
  -- connection open.
  pub close-first_broken :
      (c : Client O)
      → close O c ≡ (elim (first_broken (Dict.values c.recipient_caches)) [
        | none ↦ outside O O.platform.close (record c { background_tasks = [] })
        | some e ↦ (err e, record c { background_tasks = [] })
      ])
  unfolding close
  close-first_broken c =
      let c' : Client O = record c { background_tasks = [] } in
      ap
        (λ (out : Result (Unit {0}) × Client O).
          ((λ (_ : Client O). out) >>= λ (_ : Unit {0}). outside O O.platform.close) c')
        (stop_all-first_broken (Dict.values c.recipient_caches) c')
      ∙ elim (Option-cases (first_broken (Dict.values c.recipient_caches))) [
        | inl fine ↦ rw fine refl
        | inr (e, broken) ↦ rw broken refl
      ]
