-- ===== src/Loading/Checking.antt =====
-- What the checks before loading give: each plugin that is ready has passed them, and each one that
-- is not has a failure.
use stanchion.Prelude.{
  ◌≡◌, refl, sym, ap, ◌∙◌, subst, true, false, ◌⊎◌, inl, inr, Option, List, [], ◌∷◌, arith,
  any-append, In, here, there, In-append_left, Text, Map, text_eq, text_eq_refl, contains_key,
  Bool-cases, Option-cases, >>=-eq-ok, Outcome-cases,
}
use mathlib.Core.List.{map-append}
use stanchion.Manifest.{Manifest}
use stanchion.Signature.{Bytes}
use stanchion.Rocks.Version.{RockVersion}
use stanchion.Registry.{
  FailureReason, io_failed, LoadFailure, Outcome, ok, err, map_err, LoadItem, Host, Registry,
  verify_plugin, bind_if_digest,
}
use stanchion.Registry.Verify.{IsBound, bind_if_digest-IsBound}
use stanchion.Resolution.{elem}
use stanchion.Resolution.Arranging.{failure_names}
use stanchion.Loading.{Loader, Progress, record_as, record_failure, verify_rocks, unmet}
use stanchion.Loading.Directory.{check_one, check_all}

-- Every name that counts as failed has a failure.
abbrev pub IsBooked : Progress → Type 0
IsBooked p = (x : Text) → elem x p.failed_names ≡ true → elem x (failure_names p.failures) ≡ true

-- From `p` to `q` no name stops to count as failed, names stay booked, and failures stay.
pub record Extends (p q : Progress) : Type 0 where
  pub keeps : (x : Text) → elem x p.failed_names ≡ true → elem x q.failed_names ≡ true
  pub books : IsBooked p → IsBooked q
  pub reports : (f : LoadFailure) → In f p.failures → In f q.failures

pub Extends-refl : (p : Progress) → Extends p p
Extends-refl p = record { keeps = λ x e. e; books = λ b. b; reports = λ f i. i }

pub Extends-trans : {p q t : Progress} → Extends p q → Extends q t → Extends p t
Extends-trans f g = record {
  keeps = λ x e. g.keeps x (f.keeps x e);
  books = λ b. g.books (f.books b);
  reports = λ x i. g.reports x (f.reports x i);
}

pub record_as-Extends :
    (name dir : Text) (reason : FailureReason) (p : Progress)
    → Extends p (record_as name dir reason p)
record_as-Extends name dir reason p = record {
  keeps = λ x e. ground arith;
  books = λ b x e.
      let last : List LoadFailure = (record { name = name; dir = dir; reason = reason }) ∷ [] in
      ap (elem x) (map-append (λ (f : LoadFailure). f.name) p.failures last)
      ∙ any-append (text_eq x) (failure_names p.failures) (failure_names last)
      ∙ ground (arith, b x);
  reports = λ f i. In-append_left _ i;
}

module _ {W : Type 0} (host : Host W) (r : Registry) (w : W)
    (installed : Option (Map RockVersion)) where
  -- The plugin's name is free, its rocks are there, it has passed verification, and the bytes at
  -- hand are those of its entry file, bound to its digest if there is one.
  pub record IsReady (item : LoadItem) : Type 0 where
    pub free : contains_key item.manifest.name r.index ≡ false
    pub rocks : verify_rocks item.manifest installed ≡ ok tt
    pub verified : verify_plugin host r w item.manifest ≡ ok (item.signer, item.digest)
    pub read : host.read_file w item.manifest.dir item.manifest.entry ≡ ok item.entry_bytes
    pub bound : IsBound host.sha256 item.manifest item.digest item.entry_bytes

module _ {W : Type 0} (host : Host W) (loader : Loader W) (r : Registry) (w : W)
    (installed : Option (Map RockVersion)) where
  read_ok : (o : Outcome Text Bytes) (b : Bytes) → map_err io_failed o ≡ ok b → o ≡ ok b
  read_ok (ok c) b e = ground arith
  read_ok (err x) b e = absurd (ground arith)

  ok-injective : {a c : LoadItem} → ◌≡◌ {A = Outcome FailureReason LoadItem} (ok a) (ok c) → a ≡ c
  ok-injective e = cc

  check_one-IsReady :
      (failed_names : List Text) (m : Manifest) {item : LoadItem}
      → check_one host loader r w installed failed_names m ≡ ok item
      → (item.manifest ≡ m) × IsReady host r w installed item
  unfolding check_one
  check_one-IsReady failed_names m {item} h = elim (Bool-cases (contains_key m.name r.index)) [
    | inl e ↦ absurd (ground arith)
    | inr e ↦ elim (Option-cases (unmet failed_names m.dependencies)) [
      | inr (dep, f) ↦ absurd (ground arith)
      | inl f ↦
          let (_, e1, h1) = >>=-eq-ok (verify_rocks m installed) _ (rw (e, f) at h) in
          let (v, e2, h2) = >>=-eq-ok (verify_plugin host r w m) _ h1 in
          let (b, e3, h3) = >>=-eq-ok (map_err io_failed (host.read_file w m.dir m.entry)) _ h2 in
          let (_, e4, h4) = >>=-eq-ok (bind_if_digest host.sha256 m v.1 b) _ h3 in
          subst (λ (i : LoadItem). (i.manifest ≡ m) × IsReady host r w installed i)
            (ok-injective h4)
            (
              refl,
              record {
                free = e;
                rocks = e1;
                verified = e2;
                read = read_ok (host.read_file w m.dir m.entry) b e3;
                bound = bind_if_digest-IsBound host.sha256 m v.1 b e4;
              },
            )
    ]
  ]

  pub check_all-IsReady :
      (p : Progress) (ordered : List Manifest) {item : LoadItem}
      → In item (check_all host loader r w installed p ordered).1
      → IsReady host r w installed item
  unfolding check_all
  check_all-IsReady p [] i = elim i [ ]
  check_all-IsReady p (m ∷ ordered) i =
      elim (Outcome-cases (check_one host loader r w installed p.failed_names m)) [
        | inl (a, e) ↦ elim (rw (e, check_all) at i) [
          | here q ↦
              subst (IsReady host r w installed) (sym q) (check_one-IsReady p.failed_names m e).1
          | there j ↦ check_all-IsReady p ordered j
        ]
        | inr (reason, e) ↦
            check_all-IsReady (record_failure m reason p) ordered (rw (e, check_all) at i)
      ]

  pub check_all-Extends :
      (p : Progress) (ordered : List Manifest)
      → Extends p (check_all host loader r w installed p ordered).0
  unfolding check_all
  check_all-Extends p [] = Extends-refl p
  check_all-Extends p (m ∷ ordered) =
      elim (Outcome-cases (check_one host loader r w installed p.failed_names m)) [
        | inl (a, e) ↦ rw (e, check_all) (check_all-Extends p ordered)
        | inr (reason, e) ↦
            rw (e, check_all)
              (Extends-trans (record_as-Extends m.name m.dir reason p)
                (check_all-Extends (record_failure m reason p) ordered))
      ]

  -- Every plugin of the order has failed, or is ready.
  pub check_all-In :
      (p : Progress) (m : Manifest) (ordered : List Manifest)
      → In m ordered
      → (elem m.name (check_all host loader r w installed p ordered).0.failed_names ≡ true)
        ⊎ ((item : LoadItem) × In item (check_all host loader r w installed p ordered).1
            × (item.manifest ≡ m))
  unfolding check_all
  check_all-In p m [] i = elim i [ ]
  check_all-In p m (n ∷ ordered) i =
      elim (Outcome-cases (check_one host loader r w installed p.failed_names n)) [
        | inl (a, e) ↦ elim i [
          | here q ↦
              rw (e, check_all)
                (inr (a, here refl, (check_one-IsReady p.failed_names n e).0 ∙ sym q))
          | there j ↦
              rw (e, check_all)
                (elim (check_all-In p m ordered j) [
                  | inl f ↦ inl f
                  | inr (item, k, q) ↦ inr (item, there k, q)
                ])
        ]
        | inr (reason, e) ↦ elim i [
          | here q ↦
              rw (e, check_all)
                (inl (
                  (check_all-Extends (record_failure n reason p) ordered).keeps m.name (
                    ground (
                      arith,
                      ap (λ (x : Manifest). text_eq m.name x.name) q,
                      text_eq_refl m.name,
                    ))))
          | there j ↦ rw (e, check_all) (check_all-In (record_failure n reason p) m ordered j)
        ]
      ]
