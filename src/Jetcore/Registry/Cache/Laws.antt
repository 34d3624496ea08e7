-- ===== src/Jetcore/Registry/Cache/Laws.antt =====
-- What the cache holds after any updates.
use jet_core_service_bus.Prelude.{
  String, ◌≡◌, refl, Bool, true, false, Option, none, some, List, [], ◌∷◌, arith, if◌then◌else◌,
  All, ◌∙◌, ap, Bool-cases, inl, inr, if-false, str_eq,
}
use jet_core_service_bus.Python.Exception.{Exception, Result, ok, err}
use jet_core_service_bus.Python.Json.{Bytes, Json, JsonModule, is_object, get_item-non_object}
use jet_core_service_bus.Python.Dict
use jet_core_service_bus.Python.Dict.{lookup-insert, lookup-erase}
use jet_core_service_bus.Python.Equality.{string_eq}
use jet_core_service_bus.Jetcore.Platform.{kv_put, kv_del, kv_purge, Update, caught_up, entry}
use jet_core_service_bus.Jetcore.Registry.Cache.{
  RecipientCache, failed, has_failed, public_key_of, store, consume_one, consume,
}

-- The exceptions that the loop skips
abbrev is_skipped : Result Json → Bool
is_skipped (err Exception.json_decode_error) = true
is_skipped (err Exception.key_error) = true
is_skipped _ = false

abbrev is_read : Result Json → Bool
is_read (ok k) = true
is_read r = is_skipped r

module _ (J : JsonModule) where
  -- An update that does not end the task: its value can be read, or is skipped.
  abbrev pub IsBenign : Update → Type 0
  IsBenign caught_up = Unit
  IsBenign (entry key kv_put value) = is_read (public_key_of J value) ≡ true
  IsBenign (entry key op value) = Unit

  -- What an update says of a key: nothing, that it is gone, or that it has a value.
  abbrev said : Result Json → Option (Option Json)
  said (ok k) = some (some k)
  said (err e) = none

  pub says : String → Update → Option (Option Json)
  says k caught_up = none
  says k (entry key kv_put value) = if str_eq key k then said (public_key_of J value) else none
  says k (entry key op value) = if str_eq key k then some none else none

  -- The last word of the updates on a key, found from the end.
  pub last_word : String → List Update → Option (Option Json)
  last_word k [] = none
  last_word k (u ∷ us) = elim (last_word k us) [ none ↦ says k u | some w ↦ some w ]

  pub or_before : Option Json → Option (Option Json) → Option Json
  or_before old none = old
  or_before old (some w) = w

  lookup-store :
      (k key : String) (c : RecipientCache) (r : Result Json)
      → Dict.lookup k (store J c key r).entries
        ≡ or_before (Dict.lookup k c.entries) (if str_eq key k then said r else none)
  unfolding store or_before
  lookup-store k key c (ok v) = rw lookup-insert (ground arith)
  lookup-store k key c (err Exception.json_decode_error) = ground arith
  lookup-store k key c (err Exception.key_error) = ground arith
  lookup-store k key c (err e) = ground arith

  store-failed :
      (key : String) (c : RecipientCache) (r : Result Json)
      → is_read r ≡ true
      → (store J c key r).failure ≡ c.failure
  unfolding store
  store-failed key c (ok v) h = refl
  store-failed key c (err Exception.json_decode_error) h = refl
  store-failed key c (err Exception.key_error) h = refl
  store-failed key c (err e) h = ground arith

  lookup-consume_one :
      (k : String) (c : RecipientCache) (u : Update)
      → Dict.lookup k (consume_one J c u).entries ≡ or_before (Dict.lookup k c.entries) (says k u)
  unfolding consume_one says or_before
  lookup-consume_one k c caught_up = refl
  lookup-consume_one k c (entry key kv_put value) = lookup-store k key c (public_key_of J value)
  lookup-consume_one k c (entry key kv_del value) = rw lookup-erase (ground arith)
  lookup-consume_one k c (entry key kv_purge value) = rw lookup-erase (ground arith)

  consume_one-failed :
      (c : RecipientCache) (u : Update) → IsBenign u → (consume_one J c u).failure ≡ c.failure
  unfolding consume_one
  consume_one-failed c caught_up h = refl
  consume_one-failed c (entry key kv_put value) h = store-failed key c (public_key_of J value) h
  consume_one-failed c (entry key kv_del value) h = refl
  consume_one-failed c (entry key kv_purge value) h = refl

  or_before-word :
      (k : String) (u : Update) (us : List Update) (old : Option Json)
      → or_before (or_before old (says k u)) (last_word k us) ≡ or_before old (last_word k (u ∷ us))
  unfolding or_before last_word
  or_before-word k u us old = ground arith

  consume_running :
      (c : RecipientCache) (u : Update) (us : List Update)
      → failed c ≡ false
      → consume J c (u ∷ us) ≡ consume J (consume_one J c u) us
  unfolding consume
  consume_running c u us running = if-false _ _ running

  -- For a watch that has not failed, and updates whose values can be read or are skipped: a key
  -- holds what the last update on it said, or what it held before if none said anything, and the
  -- watch has not failed.
  pub lookup-consume :
      (k : String) (us : List Update) (c : RecipientCache)
      → All IsBenign us
      → failed c ≡ false
      → (Dict.lookup k (consume J c us).entries
          ≡ or_before (Dict.lookup k c.entries) (last_word k us))
        × (failed (consume J c us) ≡ false)
  unfolding consume
  lookup-consume k [] c h running = (unfold or_before last_word in refl, running)
  lookup-consume k (u ∷ us) c (hu, hs) running =
      let (value, alive) =
        lookup-consume k us (consume_one J c u) hs
          (ap has_failed (consume_one-failed c u hu) ∙ running) in
      rw (consume_running c u us running)
        (value ∙ (rw lookup-consume_one (or_before-word k u us (Dict.lookup k c.entries))), alive)

  -- After a failure no update changes the cache.
  pub consume-failed :
      (c : RecipientCache) (us : List Update) → failed c ≡ true → consume J c us ≡ c
  unfolding consume
  consume-failed c [] h = refl
  consume-failed c (u ∷ us) h = rw h

  public_key_of-non_object :
      (bytes : Bytes) (v : Json)
      → J.loads bytes ≡ ok v
      → is_object v ≡ false
      → public_key_of J (some bytes) ≡ err Exception.type_error
  unfolding public_key_of
  public_key_of-non_object bytes v h no_object =
      rw h (get_item-non_object v "encryptionPublicKey" no_object)

  -- When a registration has a value that is JSON but no object, then whatever updates arrive behind
  -- it, the entries stay as they were before it.
  pub consume_non_object :
      (c : RecipientCache) (key : String) (bytes : Bytes) (v : Json) (us : List Update)
      → J.loads bytes ≡ ok v
      → is_object v ≡ false
      → (consume J c (entry key kv_put (some bytes) ∷ us)).entries ≡ c.entries
  unfolding store consume_one
  consume_non_object c key bytes v us h no_object = elim (Bool-cases (failed c)) [
    | inl stopped ↦ rw (consume-failed c _ stopped)
    | inr running ↦
        rw (consume_running c _ us running, public_key_of-non_object bytes v h no_object)
          (ap (λ (c' : RecipientCache). c'.entries)
            (consume-failed (record c { failure = some Exception.type_error }) us refl))
  ]
