-- ===== src/Lsm/Table/Footer.antt =====
-- Where a reader finds the parts of a table.
use mathlib.Core.List.{append_assoc}
use yukino_go.Base.{
  ℕ, zero, suc, ◌+◌, ◌-◌, ◌≤◌, ◌<◌, ◌^◌, ◌≡◌, refl, ap, ◌∙◌, arith, true, false, List, [], ◌∷◌,
  ◌++◌, length, drop, length-append, ltb, leb, ok,
}
use yukino_go.Lsm.{put_uvarint}
use yukino_go.Lsm.Varint.{read_uvarint-put_uvarint, make_read-append, length-put_uvarint}
use yukino_go.Lsm.Filter as Filter
use yukino_go.Lsm.Table.{SstReader, new_sst_reader, footer, footer_numbers, read_footer, read_block}

drop-append : (xs ys : List ℕ) → drop (length xs) (xs ++ ys) ≡ ys
drop-append [] ys = refl
drop-append (x ∷ xs) ys = drop-append xs ys

length-zeros : (n : ℕ) → length (Filter.zeros n) ≡ n
length-zeros zero = refl
length-zeros (suc n) = ap suc (length-zeros n)

-- The numbers fit, if the table is shorter than 2^56 bytes.
pub footer-footer_numbers :
    (n : ℕ) (entries filters index : List ℕ)
    → 32 ≤ n
    → length entries + length filters + length index < 2 ^ 56
    → (rest : List ℕ) × (footer n (footer_numbers entries filters index)
        ≡ ok (footer_numbers entries filters index ++ rest))
      × (length (footer_numbers entries filters index ++ rest) ≡ n)
unfolding footer
footer-footer_numbers n entries filters index room short =
    let d = put_uvarint (length entries) in
    let f = put_uvarint (length filters) in
    let o = put_uvarint (length entries + length filters) in
    let i = put_uvarint (length index) in
    let numbers = d ++ (f ++ (o ++ i)) in
    let fits : length numbers ≤ n = omega (
      arith,
      length-append d (f ++ (o ++ i)),
      length-append f (o ++ i),
      length-append o i,
      length-put_uvarint (length entries) (omega arith),
      length-put_uvarint (length filters) (omega arith),
      length-put_uvarint (length entries + length filters) (omega arith),
      length-put_uvarint (length index) (omega arith),
    ) in
    let test : leb (length numbers) n ≡ true = ground arith in
    let rest = Filter.zeros (n - length numbers) in
    (rest, rw test, omega (arith, length-append numbers rest, length-zeros (n - length numbers)))

pub read_footer-footer_numbers :
    (n : ℕ) (entries filters index before rest : List ℕ)
    → length (footer_numbers entries filters index ++ rest) ≡ n
    → length entries + length filters + length index < 2 ^ 56
    → read_footer n (new_sst_reader (before ++ (footer_numbers entries filters index ++ rest)))
      ≡ ok (record {
        src = before ++ (footer_numbers entries filters index ++ rest);
        filter_offset = length entries;
        filter_size = length filters;
        index_offset = length entries + length filters;
        index_size = length index;
      })
unfolding read_footer
read_footer-footer_numbers n entries filters index before rest len short =
    let d = put_uvarint (length entries) in
    let f = put_uvarint (length filters) in
    let o = put_uvarint (length entries + length filters) in
    let i = put_uvarint (length index) in
    let end = footer_numbers entries filters index ++ rest in
    let whole = length-append before end in
    let long : ltb (length (before ++ end)) n ≡ false = ground arith in
    let start : length (before ++ end) - n ≡ length before = omega arith in
    let parts : end ≡ d ++ (f ++ (o ++ (i ++ rest))) =
      append_assoc d (f ++ (o ++ i)) rest
      ∙ ap (λ w. d ++ w)
          (append_assoc f (o ++ i) rest ∙ ap (λ w. f ++ w) (append_assoc o i rest)) in
    let tail : drop (length (before ++ end) - n) (before ++ end) ≡ d ++ (f ++ (o ++ (i ++ rest))) =
      ap (λ k. drop k (before ++ end)) start ∙ drop-append before end ∙ parts in
    rw (
      long,
      tail,
      read_uvarint-put_uvarint (length entries) (f ++ (o ++ (i ++ rest))) (omega arith),
      read_uvarint-put_uvarint (length filters) (o ++ (i ++ rest)) (omega arith),
      read_uvarint-put_uvarint (length entries + length filters) (i ++ rest) (omega arith),
      read_uvarint-put_uvarint (length index) rest (omega arith),
    )

pub read_block-append :
    (limit : ℕ) (spare : List ℕ → List ℕ) (n : ℕ) (before block after : List ℕ) (r : SstReader)
    (offset block_size : ℕ)
    → r.src ≡ before ++ (block ++ after)
    → offset ≡ length before
    → block_size ≡ length block
    → length before < 2 ^ 63
    → length block ≤ limit
    → read_block limit spare n offset block_size r ≡ ok block
unfolding read_block
read_block-append limit spare n before block after r offset block_size e o z low fits =
    let inside : leb (2 ^ 63) offset ≡ false = ground arith in
    let there : drop offset r.src ≡ block ++ after =
      ap (λ k. drop k r.src) o
      ∙ ap (drop (length before)) e
      ∙ drop-append before (block ++ after) in
    rw (inside, there, z, make_read-append limit block after fits)
