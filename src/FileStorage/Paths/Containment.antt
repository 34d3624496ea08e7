-- ===== src/FileStorage/Paths/Containment.antt =====
-- What `resolve_within` lets through (file_storage_adapter/paths.py).
use jet_core_service_bus.Prelude.{
  ap, sym, ◌∙◌, refl, Bool, if◌then◌else◌, String, ◌≡◌, true, false, ◌++◌, inl, inr, ◌↔◌, ◌⊎◌,
  subst, arith, Bool-cases,
}
use jet_core_service_bus.Python.Exception.{ok-injective, Exception, Result, ok, err, Result-cases}
use jet_core_service_bus.Python.PurePath.{
  PosixPath, Within, parts, is_absolute, is_within, is_within-Within, test_of_within,
}
use jet_core_service_bus.Python.Exec.{pure, raise}
use jet_core_service_bus.Python.Exec.Hoare.{Ends}
use jet_core_service_bus.Python.Exec.Keeps.{Keeps, bind-Keeps}
use jet_core_service_bus.FileStorage.FileSystem.{FileSystem}
use jet_core_service_bus.FileStorage.Paths.{resolve_within, resolve_relative}

module _ {S : Type 0} (F : FileSystem S) (root : PosixPath) (relative : String) (s : S) where
  abbrev pub root_resolved : Result PosixPath × S
  root_resolved = F.resolve root s

  abbrev pub resolved_below : PosixPath → Result PosixPath × S
  resolved_below r = F.resolve (r ++ parts relative) root_resolved.1

  -- The path is the resolved one, and it lies within the resolved root.
  pub record IsContained (target : PosixPath) (s' : S) : Type 0 where
    pub is_relative : is_absolute relative ≡ false
    pub r : PosixPath
    pub rooted : root_resolved.0 ≡ ok r
    pub resolved : resolved_below r ≡ (ok target, s')
    pub within : Within r target

  pub resolve_within-IsContained :
      (target : PosixPath) (s' : S)
      → resolve_within F root relative s ≡ (ok target, s')
      → IsContained target s'
  unfolding resolve_within
  resolve_within-IsContained target s' h = elim (Bool-cases (is_absolute relative)) [
    | inl absolute ↦ absurd (ground arith)
    | inr is_relative ↦ elim (Result-cases root_resolved.0) [
      | inr (x, failed) ↦ absurd (ground arith)
      | inl (r, rooted) ↦ elim (Result-cases (resolved_below r).0) [
        | inr (x, failed) ↦ absurd (ground arith)
        | inl (candidate, resolved) ↦ elim (Bool-cases (is_within r candidate)) [
          | inr outside ↦ absurd (ground arith)
          | inl inside ↦ record {
            is_relative = is_relative;
            r = r;
            rooted = rooted;
            resolved = ground arith;
            within = subst (Within r) (ground arith) (is_within-Within r candidate inside);
          }
        ]
      ]
    ]
  ]

  pub resolve_within_complete :
      (target : PosixPath) (s' : S)
      → IsContained target s'
      → resolve_within F root relative s ≡ (ok target, s')
  unfolding resolve_within
  resolve_within_complete target s' c =
      let (below, e) = c.within in
      let inside : is_within c.r target ≡ true = rw e (test_of_within c.r below) in
      let rooted = c.rooted in
      let resolved = c.resolved in let is_relative = c.is_relative in ground arith

  -- `resolve_within` returns a path and a state exactly when the relative text is not absolute, the
  -- path is what the resolution below the resolved root returns with that state, and it lies within
  -- the resolved root.
  pub resolve_within_iff :
      (target : PosixPath) (s' : S)
      → (resolve_within F root relative s ≡ (ok target, s')) ↔ IsContained target s'
  resolve_within_iff target s' =
      (resolve_within-IsContained target s', resolve_within_complete target s')

  -- A path whose resolution leaves the root is refused.
  pub resolve_within-refuses :
      (r candidate : PosixPath) (s' : S)
      → root_resolved.0 ≡ ok r
      → resolved_below r ≡ (ok candidate, s')
      → ¬ Within r candidate
      → resolve_within F root relative s ≡ (err Exception.path_traversal_error, s')
        ⊎ (resolve_within F root relative s ≡ (err Exception.path_traversal_error, s))
  unfolding resolve_within
  resolve_within-refuses r candidate s' rooted resolved outside =
      elim (Bool-cases (is_within r candidate)) [
        | inl inside ↦ absurd (outside (is_within-Within r candidate inside))
        | inr out ↦ ground arith
      ]

module _ {S : Type 0} (F : FileSystem S) (Q : S → Type 0)
    (keeps : (p : PosixPath) → Keeps Q (F.resolve p)) where
  accept-Keeps :
      (good : Bool) (target : PosixPath)
      → Keeps {S = S} {A = PosixPath} Q
          (if good then pure target else raise Exception.path_traversal_error)
  accept-Keeps true target s h = h
  accept-Keeps false target s h = h

  resolve_relative-Keeps :
      (root : PosixPath) (path : String) → Keeps Q (resolve_relative F root path)
  unfolding resolve_relative
  resolve_relative-Keeps root path = bind-Keeps Q (F.resolve root) _ (keeps root) λ base.
      bind-Keeps Q (F.resolve (base ++ parts path))
        (λ target.
          if is_within base target then pure target else raise Exception.path_traversal_error)
        (keeps (base ++ parts path)) λ target. accept-Keeps (is_within base target) target

  pub resolve_within-Keeps :
      (root : PosixPath) (path : String) → Keeps Q (resolve_within F root path)
  unfolding resolve_within
  resolve_within-Keeps root path s h = elim (Bool-cases (is_absolute path)) [
    | inl absolute ↦ rw absolute h
    | inr is_relative ↦ rw is_relative (resolve_relative-Keeps root path s h)
  ]

module _ {S : Type 0} (F : FileSystem S) (Q : S → Type 0)
    (keeps : (p : PosixPath) → Keeps Q (F.resolve p)) (root r : PosixPath)
    (rooted : (s : S) → Q s → (F.resolve root s).0 ≡ ok r) where
  -- What the resolution says, once it is made
  pub resolve_within-Ends :
      (path : String) (s : S)
      → Q s
      → Ends
          (λ target s'. Within r target × ((resolve_within F root path s).0 ≡ ok target) × Q s')
          (λ e s'. ((resolve_within F root path s).0 ≡ err e) × Q s')
          (resolve_within F root path s)
  resolve_within-Ends path s h =
      ends (resolve_within F root path s).0 (resolve_within F root path s).1 refl
        (resolve_within-Keeps F Q keeps root path s h)
    where
      ends :
          (res : Result PosixPath) (s' : S)
          → resolve_within F root path s ≡ (res, s')
          → Q s'
          → Ends
              (λ target s''.
                Within r target × ((resolve_within F root path s).0 ≡ ok target) × Q s'')
              (λ e s''. ((resolve_within F root path s).0 ≡ err e) × Q s'')
              (res, s')
      ends (ok target) s' e q =
          let c = resolve_within-IsContained F root path s target s' e in
          let w = c.within in
          let same : c.r ≡ r = ok-injective (sym c.rooted ∙ rooted s h) in
          (subst (λ x. Within x target) same w, ap (λ y. y.0) e, q)
      ends (err x) s' e q = (ap (λ y. y.0) e, q)
