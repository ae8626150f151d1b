-- ===== src/Observability/Laws.antt =====
-- Registering the collectors, once.
use gitrepo_csi_driver.Base.{
  ℕ, leb, ◌==◌, ◌||◌, &&_elim, Bool, true, false, not, ◌&&◌, ◌≡◌, refl, List, [], ◌∷◌, ◌++◌, some,
  all,
}
use gitrepo_csi_driver.Observability.{
  Kind, counter, gauge, histogram, new_metrics, Collector, Metrics, collectors, Prometheus,
  Registration, register, handler,
}
use gitrepo_csi_driver.Text.{Text, codes, has_prefix, same}

-- Whether no two collectors have the same name.
unfoldable pub distinct : List Collector → Bool
distinct [] = true
distinct (c ∷ cs) = all (λ (d : Collector). not (same c.name d.name)) cs && distinct cs

-- Whether each of the ones has another name than each of the others.
unfoldable pub apart : List Collector → List Collector → Bool
apart xs ys = all (λ (c : Collector). all (λ (d : Collector). not (same c.name d.name)) ys) xs

unfoldable pub is_letter : ℕ → Bool
is_letter c = (leb b'a' c && leb c b'z') || (leb b'A' c && leb c b'Z') || (c == b'_')

-- A name of letters, digits and underscores that begins with no digit; Prometheus has colons too, in the
-- names of metrics.
unfoldable pub is_valid_name : Text → Bool
is_valid_name [] = false
is_valid_name (c ∷ name) = is_letter c && all (λ d. is_letter d || (leb b'0' d && leb d b'9')) name

-- Names of labels are such names, no two of them the same; two underscores in front, and "le" in a
-- histogram, are Prometheus's own.
unfoldable pub are_valid_labels : Kind → List Text → Bool
are_valid_labels kind [] = true
are_valid_labels kind (l ∷ labels) =
    is_valid_name l
    && not (has_prefix l (codes "__"))
    && not (is_histogram kind && same l (codes "le"))
    && all (λ (m : Text). not (same l m)) labels
    && are_valid_labels kind labels
  where
    is_histogram : Kind → Bool
    is_histogram histogram = true
    is_histogram counter = false
    is_histogram gauge = false

unfoldable pub is_valid : Collector → Bool
is_valid c = is_valid_name c.name && are_valid_labels c.kind c.labels

-- What the client documents of `MustRegister`: collectors with valid descriptors, whose names are new and
-- different, are registered.
abbrev pub Registers : Prometheus → Type 0
Registers p =
    (registry : p.Registry) (cs : List Collector)
    → distinct (p.held registry ++ cs) ≡ true
    → all is_valid cs ≡ true
    → (later : p.Registry) × (p.must_register registry cs ≡ some later)
      × (p.held later ≡ p.held registry ++ cs)

-- The names of the collectors differ, and their descriptors are valid.
pub collectors-distinct : distinct (collectors new_metrics) ≡ true
unfolding distinct collectors new_metrics same
collectors-distinct = refl

pub collectors-is_valid : all is_valid (collectors new_metrics) ≡ true
unfolding is_valid is_valid_name are_valid_labels is_letter collectors new_metrics same has_prefix
collectors-is_valid = refl

all-append :
    (p : Collector → Bool) (xs ys : List Collector)
    → all p xs ≡ true
    → all p ys ≡ true
    → all p (xs ++ ys) ≡ true
all-append p [] ys h k = k
all-append p (x ∷ xs) ys h k =
    let (a, b) = &&_elim (p x) (all p xs) h in rw (a, all-append p xs ys b k) refl

pub distinct-append :
    (xs ys : List Collector)
    → distinct xs ≡ true
    → distinct ys ≡ true
    → apart xs ys ≡ true
    → distinct (xs ++ ys) ≡ true
unfolding distinct apart
distinct-append [] ys h k a = k
distinct-append (x ∷ xs) ys h k a =
    let p = λ (d : Collector). not (same x.name d.name) in
    let (h0, h1) = &&_elim (all p xs) (distinct xs) h in
    let (a0, a1) = &&_elim (all p ys) (apart xs ys) a in
    rw (all-append p xs ys h0 a0, distinct-append xs ys h1 k a1) refl

module _ (p : Prometheus) (registers : Registers p) where
  pub register_done :
      (m : Metrics) (r : p.Registry)
      → distinct (p.held r ++ collectors m) ≡ true
      → all is_valid (collectors m) ≡ true
      → (later : Registration p) × (register p m (record { done = false; registry = r })
          ≡ some later)
        × (later.done ≡ true)
        × (p.held later.registry ≡ p.held r ++ collectors m)
  unfolding register
  register_done m r d v =
      let (later, h, held) = registers r (collectors m) d v in
      (record { done = true; registry = later }, rw h refl, refl, held)

  pub handler_done : (m : Metrics) (r : Registration p) → r.done ≡ true → handler p m r ≡ some r
  unfolding handler register
  handler_done m r d = rw d refl
