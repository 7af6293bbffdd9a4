-- ===== src/Policy/Lifetimes.antt =====
-- The renewal maximum that policy/mod.rs infers for a provisioner without limit.
use grafhome_ca.Base.{
  All, All-append_left, All-append_right, List, Text, [], arith, leb, text, true, ◌++◌, ◌∷◌, ◌≡◌,
  Bool, eq_text, filter, if◌then◌else◌, map, ◌&&◌, ◌≤◌, All-filter, All-map, eq_text_iff, false,
  refl, not, if-false,
}
use grafhome_ca.Policy.Model.{
  is_active, Policy, Provisioner, duration_or_zero, inferred_renewal_max_ttl, longest, longest_with,
  renewal_default_ttl, User,
}

-- The second duration lasts at least as long; what does not parse lasts no time.
abbrev pub AtMost : Text → Text → Type 0
AtMost d m = duration_or_zero d ≤ duration_or_zero m

-- The choice that one turn of `max_by_key` makes.
later-AtMost :
    (best d : Text) (b : Bool)
    → leb (duration_or_zero best) (duration_or_zero d) ≡ b
    → AtMost best (if b then d else best) × AtMost d (if b then d else best)
later-AtMost best d true e = (ground arith, omega arith)
later-AtMost best d false e = (omega arith, ground arith)

longest-AtMost :
    (best : Text) (ds : List Text)
    → AtMost best (longest best ds) × All (λ d. AtMost d (longest best ds)) ds
unfolding longest
longest-AtMost best [] = (omega arith, tt)
longest-AtMost best (d ∷ ds) =
    let next : Text = if leb (duration_or_zero best) (duration_or_zero d) then d else best in
    let (a, b) = later-AtMost best d (leb (duration_or_zero best) (duration_or_zero d)) refl in
    let (k, rest) = longest-AtMost next ds in (omega arith, (omega arith, rest))

longest_with-AtMost :
    (ds : List Text) (default : Text)
    → All (λ d. AtMost d (longest_with ds default)) ds × AtMost default (longest_with ds default)
unfolding longest_with
longest_with-AtMost [] default = (tt, omega arith)
longest_with-AtMost (d ∷ ds) default =
    let (k, rest) = longest-AtMost d (ds ++ default ∷ []) in
    let P : Text → Type 0 = λ e. AtMost e (longest d (ds ++ default ∷ [])) in
    ((k, All-append_left P ds (default ∷ []) rest), (All-append_right P ds (default ∷ []) rest).0)

All-map_list {ℓ} :
    {A : Type ℓ} (f : A → Text) (P : Text → Type 0) (xs : List A)
    → All P (map f xs)
    → All (λ x. P (f x)) xs
All-map_list f P [] h = tt
All-map_list f P (x ∷ xs) (p, h) = (p, All-map_list f P xs h)

-- A provisioner whose enrollment maximum is `unlimited` gets an inferred renewal maximum that no
-- active user of the provisioner exceeds, nor its renewal default.
pub inferred_renewal_max_ttl-AtMost :
    (policy : Policy) (p : Provisioner)
    → p.max_ttl ≡ text "unlimited"
    → AtMost (renewal_default_ttl p) (inferred_renewal_max_ttl policy p)
      × All
          (λ u.
            is_active u.status ≡ true
            → u.provisioner ≡ p.name
            → AtMost u.cert_ttl (inferred_renewal_max_ttl policy p))
          policy.users
unfolding inferred_renewal_max_ttl
inferred_renewal_max_ttl-AtMost policy p h =
    let q : User → Bool = λ u. is_active u.status && eq_text u.provisioner p.name in
    let ds : List Text = map (λ u. u.cert_ttl) (filter q policy.users) in
    let (users, default) = longest_with-AtMost ds (renewal_default_ttl p) in
    let e : inferred_renewal_max_ttl policy p ≡ longest_with ds (renewal_default_ttl p) =
      if-false (not (eq_text p.max_ttl (text "unlimited"))) p.max_ttl
        (longest_with ds (renewal_default_ttl p))
        (ground (arith, eq_text_iff p.max_ttl (text "unlimited"))) in
    let P : Text → Type 0 = λ d. AtMost d (inferred_renewal_max_ttl policy p) in
    let rows : All P ds = rw e users in
    (
      rw e default,
      All-map (λ u k a n. k (ground (arith, eq_text_iff u.provisioner p.name))) policy.users
          (All-filter (λ u. P u.cert_ttl) q policy.users
            (All-map_list (λ u. u.cert_ttl) P (filter q policy.users) rows)),
    )
