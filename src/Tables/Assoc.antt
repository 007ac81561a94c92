-- ===== src/Tables/Assoc.antt =====
-- A list of keys with their objects satisfies the laws of the kernel's hash tables: for the examples.
use ralink_fe.Base.{◌==◌, if◌then◌else◌, arith, Bool-cases}
use ralink_fe.Base.{
  ℕ, ◌≡◌, ◌≢◌, ◌↔◌, ◌⊎◌, refl, sym, inl, inr, Bool, true, false, Option, none, some, List, [], ◌∷◌,
  map,
}
use mathlib.Core.Path.{subst}
use ralink_fe.Flow.{ok}
use ralink_fe.Tables.{seen, HashTable}
use ralink_fe.Tables.Laws.{IsHashTable}

-- A list of keys with their objects.
abbrev pub Assoc : Type 0 → Type 0
Assoc K = List (K × ℕ)

module _ {K : Type 0} (eq : K → K → Bool) where
  unfoldable pub find_assoc : K → Assoc K → Option ℕ
  find_assoc k [] = none
  find_assoc k ((j, x) ∷ t) = if eq j k then some x else find_assoc k t

  pub drop_assoc : ℕ → Assoc K → Assoc K
  drop_assoc e [] = []
  drop_assoc e ((j, x) ∷ t) = let rest = drop_assoc e t in if x == e then rest else (j, x) ∷ rest

  abbrev pub assoc_table : HashTable K (Assoc K)
  assoc_table = record {
    lookup = find_assoc;
    insert = λ k e t. ok ((k, e) ∷ t);
    delete = λ k e t. drop_assoc e t;
    walk = map (λ p. seen p.1);
  }

pub data HasAssoc {K : Type 0} : Assoc K → K → ℕ → Type 0 where
  top : {k : K} {e : ℕ} {t : Assoc K} → HasAssoc ((k, e) ∷ t) k e
  deeper : {p : K × ℕ} {k : K} {e : ℕ} {t : Assoc K} → HasAssoc t k e → HasAssoc (p ∷ t) k e

module _ {K : Type 0} (eq : K → K → Bool) (eq_iff : (a b : K) → (eq a b ≡ true) ↔ (a ≡ b)) where
  find_assoc-has : (t : Assoc K) (k : K) (e : ℕ) → find_assoc eq k t ≡ some e → HasAssoc t k e
  unfolding find_assoc
  find_assoc-has [] k e h = absurd (ground arith)
  find_assoc-has ((j, x) ∷ t) k e h = elim (Bool-cases (eq j k)) [
    | inl same ↦
        let own : x ≡ e = ground arith in
        let key : j ≡ k = (eq_iff j k).0 same in rw (← own, ← key) top
    | inr other ↦ deeper (find_assoc-has t k e (ground arith))
  ]

  has-find_assoc : (t : Assoc K) (k : K) (e : ℕ) → HasAssoc t k e → find_assoc eq k t ≢ none
  unfolding find_assoc
  has-find_assoc [] k e h = elim h [ ]
  has-find_assoc ((j, x) ∷ t) k e top = ground (arith, eq_iff j j)
  has-find_assoc ((j, x) ∷ t) k e (deeper h) = ground (arith, has-find_assoc t k e h)

  cons-only :
      (j k : K) (y e x : ℕ) (t rest : Assoc K) (b : Bool)
      → (y == e) ≡ b
      → (HasAssoc rest k x → HasAssoc t k x × (x ≢ e))
      → HasAssoc (if b then rest else (j, y) ∷ rest) k x
      → HasAssoc ((j, y) ∷ t) k x × (x ≢ e)
  cons-only j k y e x t rest true same before i = (deeper (before i).0, (before i).1)
  cons-only j k y e x t rest false other before top = (top, ground arith)
  cons-only j k y e x t rest false other before (deeper i) = (deeper (before i).0, (before i).1)

  drop_assoc-only :
      (t : Assoc K) (k : K) (e x : ℕ) → HasAssoc (drop_assoc eq e t) k x → HasAssoc t k x × (x ≢ e)
  unfolding drop_assoc
  drop_assoc-only [] k e x h = elim h [ ]
  drop_assoc-only ((j, y) ∷ t) k e x h =
      cons-only j k y e x t (drop_assoc eq e t) (y == e) refl (drop_assoc-only t k e x) h

  cons-keeps :
      (j k : K) (y e x : ℕ) (t rest : Assoc K) (b : Bool)
      → (y == e) ≡ b
      → x ≢ e
      → (HasAssoc t k x → HasAssoc rest k x)
      → HasAssoc ((j, y) ∷ t) k x
      → HasAssoc (if b then rest else (j, y) ∷ rest) k x
  cons-keeps j k y e x t rest true same ne after top = absurd (ground arith)
  cons-keeps j k y e x t rest true same ne after (deeper i) = after i
  cons-keeps j k y e x t rest false other ne after top = top
  cons-keeps j k y e x t rest false other ne after (deeper i) = deeper (after i)

  drop_assoc-keeps :
      (t : Assoc K) (k : K) (e x : ℕ) → HasAssoc t k x → x ≢ e → HasAssoc (drop_assoc eq e t) k x
  unfolding drop_assoc
  drop_assoc-keeps [] k e x h ne = elim h [ ]
  drop_assoc-keeps ((j, y) ∷ t) k e x h ne =
      cons-keeps j k y e x t (drop_assoc eq e t) (y == e) refl ne
        (λ i. drop_assoc-keeps t k e x i ne) h

  cons-has :
      (t : Assoc K) (k j : K) (e x : ℕ)
      → HasAssoc ((k, e) ∷ t) j x
      → HasAssoc t j x ⊎ ((j ≡ k) × (x ≡ e))
  cons-has t k j e x top = inr (refl, refl)
  cons-has t k j e x (deeper i) = inl i

  put_same : (t t' : Assoc K) (k : K) (e : ℕ) → ok ((k, e) ∷ t) ≡ ok t' → (k, e) ∷ t ≡ t'
  put_same t t' k e put = ground (arith, put)

  pub assoc_table-IsHashTable : IsHashTable (assoc_table eq) HasAssoc
  assoc_table-IsHashTable = record {
    lookup_has = find_assoc-has;
    has_lookup = has-find_assoc;
    insert_has = λ t t' k e put. subst (λ l. HasAssoc l k e) (put_same t t' k e put) top;
    insert_keeps =
        λ t t' k j e x put h. subst (λ l. HasAssoc l j x) (put_same t t' k e put) (deeper h);
    insert_only = λ t t' k j e x put h.
        cons-has t k j e x (subst (λ l. HasAssoc l j x) (sym (put_same t t' k e put)) h);
    delete_only = λ t k j e x h. (drop_assoc-only t j e x h).0;
    delete_gone = λ t k e x h. (drop_assoc-only t k e x h).1;
    delete_keeps = λ t k j e x h ne. drop_assoc-keeps t j e x h ne;
  }
