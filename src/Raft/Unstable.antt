-- ===== src/Raft/Unstable.antt =====
-- components/raft/raft/log.go, `unstable`: the tail of the log that is not yet in storage.
use yukino_go.Base.{
  ℕ, ◌&&◌, ◌||◌, Option, none, some, List, [], ◌∷◌, ◌++◌, length, ltb, leb, nat_beq, add64, sub64,
  if◌then◌else◌, ok, panic, ◌>>=◌, index, slice,
}
use yukino_go.Raft.Model.{Entry}
use yukino_go.Raft.Storage.{R}

pub record Unstable : Type 0 where
  pub entries : List Entry
  pub offset : ℕ

-- `u.offset + uint64(len(u.entries))`
abbrev pub end_of : Unstable → ℕ
end_of u = add64 u.offset (length u.entries)

-- `mustCheckOutOfBounds`, then the slice expression.
unfoldable pub unstable_slice : Unstable → ℕ → ℕ → R (List Entry)
unstable_slice u l r =
    if ltb r l
    then panic
    else if ltb l u.offset || ltb (end_of u) r
    then panic
    else slice u.entries (sub64 l u.offset) (sub64 r u.offset)

-- `entries[0]` of an empty slice panics.
unfoldable pub truncate_and_append : Unstable → List Entry → R Unstable
unfolding unstable_slice
truncate_and_append u [] = panic
truncate_and_append u (e ∷ es) =
    let after = e.index in
    if nat_beq after (end_of u)
    then ok (record u { entries = u.entries ++ (e ∷ es) })
    else if leb after u.offset
    then ok (record { offset = after; entries = e ∷ es })
    else (do kept ← unstable_slice u u.offset after; ok (record u { entries = kept ++ (e ∷ es) }))

unfoldable pub maybe_last_index : Unstable → Option ℕ
maybe_last_index u = if nat_beq (length u.entries) 0 then none else some (sub64 (end_of u) 1)

-- `(term, ok)`; the index expression panics out of range.
unfoldable pub maybe_term : Unstable → ℕ → R (Option ℕ)
unfolding maybe_last_index
maybe_term u i = if ltb i u.offset then ok none else elim (maybe_last_index u) [
  | none ↦ ok none
  | some last ↦
      if ltb last i then ok none else (do e ← index u.entries (sub64 i u.offset); ok (some e.term))
]

unfoldable pub unstable_stable_to : Unstable → ℕ → ℕ → R Unstable
unfolding maybe_term
unstable_stable_to u i t = do
  found ← maybe_term u i
  elim found [
    | none ↦ ok u
    | some gt ↦
        if nat_beq t gt && leb u.offset i
        then (do
          rest ← slice u.entries (add64 (sub64 i u.offset) 1) (length u.entries)
          ok (record { entries = rest; offset = add64 i 1 }))
        else ok u
  ]
