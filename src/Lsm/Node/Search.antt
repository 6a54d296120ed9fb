-- ===== src/Lsm/Node/Search.antt =====
-- What the binary search finds.
use yukino_go.Base.{
  ℕ, zero, suc, ◌+◌, ◌-◌, ◌/◌, ◌≤◌, ◌<◌, ◌≡◌, inl, inr, refl, sym, ◌∙◌, arith, true, false, Bool,
  Bool-cases, not, In, some, List, [], ◌∷◌, ◌++◌, All, length, length-append, get_elem?,
  get_elem?-lt, get_elem?-append_left, get_elem?-append_right, ltb, ltb→lt, nat_beq, ok,
}
use yukino_go.Lsm.Table.{Index}
use yukino_go.Lsm.Node.{bytes_ltb, binary_search_index}

-- An entry that is not below the key, after those that are.
record IsFirst (key : List ℕ) (entries : List Index) (at : ℕ) (i : Index) : Type 0 where
  there : get_elem? entries at ≡ some i
  below : (j : ℕ) (x : Index) → j < at → get_elem? entries j ≡ some x → bytes_ltb x.key key ≡ true
  above : (j : ℕ) (x : Index) → at ≤ j → get_elem? entries j ≡ some x → bytes_ltb x.key key ≡ false

binary_search_index-IsFirst :
    (n : ℕ) (key : List ℕ) (start end : ℕ) (entries : List Index) (at : ℕ) (i : Index)
    → IsFirst key entries at i
    → start ≤ at
    → at ≤ end
    → end < length entries
    → end - start < n
    → binary_search_index n key start end entries ≡ ok (i, true)
unfolding binary_search_index
binary_search_index-IsFirst zero key start end entries at i f s e l fuel = absurd (omega arith)
binary_search_index-IsFirst (suc n) key start end entries at i f s e l fuel =
    elim (Bool-cases (nat_beq start end)) [
      | inl one ↦
          let same : start ≡ at = ground arith in
          let last = f.above at i (omega arith) f.there in rw (one, same, f.there, last)
      | inr more ↦
          let mid = start + (end - start) / 2 in
          let apart : start < end = ground arith in
          let (x, there) = get_elem?-lt entries mid (omega arith) in
          elim (Bool-cases (bytes_ltb x.key key)) [
            | inl low ↦
                let right : mid < at = elim (Bool-cases (ltb mid at)) [
                  | inl lt ↦ ltb→lt mid at lt
                  | inr ge ↦ let high = f.above mid x (ground arith) there in cc
                ] in
                rw (more, there, low)
                  (binary_search_index-IsFirst n key (mid + 1) end entries at i f (omega arith) e l
                    (omega arith))
            | inr high ↦
                let left : at ≤ mid = elim (Bool-cases (ltb mid at)) [
                  | inl lt ↦ let low = f.below mid x (ltb→lt mid at lt) there in cc
                  | inr ge ↦ ground arith
                ] in
                rw (more, there, high)
                  (binary_search_index-IsFirst n key start mid entries at i f s left (omega arith)
                    (omega arith))
          ]
    ]

get_elem?-All :
    {A : Type 0} (P : A → Type 0) (xs : List A) (j : ℕ) (x : A)
    → All P xs
    → get_elem? xs j ≡ some x
    → P x
get_elem?-All P [] j x h e = cc
get_elem?-All P (y ∷ xs) zero x h e = let same : y ≡ x = cc in rw (sym same) h.0
get_elem?-All P (y ∷ xs) (suc j) x h e = get_elem?-All P xs j x h.1 e

first_of : (i : Index) (after : List Index) (k : ℕ) → k ≤ 0 → get_elem? (i ∷ after) k ≡ some i
first_of i after zero h = refl
first_of i after (suc k) h = absurd (omega arith)

-- The first entry that is not below the key is found.
pub binary_search_index-append :
    (key : List ℕ) (before : List Index) (i : Index) (after : List Index)
    → All (λ x. bytes_ltb x.key key ≡ true) before
    → All (λ x. bytes_ltb x.key key ≡ false) (i ∷ after)
    → let entries = before ++ i ∷ after in
      binary_search_index (length entries) key 0 (length entries - 1) entries ≡ ok (i, true)
binary_search_index-append key before i after low high =
    let entries = before ++ i ∷ after in
    let len = length-append before (i ∷ after) in
    let at = length before in
    binary_search_index-IsFirst (length entries) key 0 (length entries - 1) entries at i
      (record {
        there =
            get_elem?-append_right before (i ∷ after) at (omega arith)
            ∙ first_of i after (at - at) (omega arith);
        below = λ j x lt e.
            get_elem?-All (λ x. bytes_ltb x.key key ≡ true) before j x low
              (sym (get_elem?-append_left before (i ∷ after) j lt) ∙ e);
        above = λ j x ge e.
            get_elem?-All (λ x. bytes_ltb x.key key ≡ false) (i ∷ after) (j - at) x high
              (sym (get_elem?-append_right before (i ∷ after) j ge) ∙ e);
      })
      (omega arith) (omega arith) (omega arith) (omega arith)

get_elem?-In : (xs : List Index) (j : ℕ) (x : Index) → get_elem? xs j ≡ some x → In x xs
get_elem?-In [] j x h = cc
get_elem?-In (y ∷ xs) zero x h = inl cc
get_elem?-In (y ∷ xs) (suc j) x h = inr (get_elem?-In xs j x h)

-- The search ends at an entry.
pub binary_search_index-In :
    (n : ℕ) (key : List ℕ) (start end : ℕ) (entries : List Index)
    → start ≤ end
    → end < length entries
    → end - start < n
    → (i : Index) × (found : Bool) × (binary_search_index n key start end entries ≡ ok (i, found))
      × In i entries
unfolding binary_search_index
binary_search_index-In zero key start end entries s e fuel = absurd (omega arith)
binary_search_index-In (suc n) key start end entries s e fuel =
    elim (Bool-cases (nat_beq start end)) [
      | inl same ↦
          let (i, there) = get_elem?-lt entries start (omega arith) in
          (i, not (bytes_ltb i.key key), rw (same, there), get_elem?-In entries start i there)
      | inr more ↦
          let mid = start + (end - start) / 2 in
          let apart : start < end = ground arith in
          let (x, there) = get_elem?-lt entries mid (omega arith) in
          elim (Bool-cases (bytes_ltb x.key key)) [
            | inl low ↦
                let (i, found, r, inside) =
                  binary_search_index-In n key (mid + 1) end entries (omega arith) e
                    (omega arith) in
                (i, found, rw (more, there, low) r, inside)
            | inr high ↦
                let (i, found, r, inside) =
                  binary_search_index-In n key start mid entries (omega arith) (omega arith)
                    (omega arith) in
                (i, found, rw (more, there, high) r, inside)
          ]
    ]
