-- ===== src/TimeWheel/Valid.antt =====
-- The invariant of the time wheel: what its slots and its map have to do with each other.
use yukino_go.Base.{ℕ, ◌*◌, ◌^◌, ◌<◌, ◌≡◌, some, List, length, get_elem?, In, lookup, bytes_eq}
use yukino_go.TimeWheel.{Element, TimeWheel}

abbrev pub key_of : Element → List ℕ
key_of e = e.value.key

abbrev pub pos_of : Element → ℕ
pos_of e = e.value.pos

-- An element of a wheel, in its slot.
pub record Seat (t : TimeWheel) (e : Element) : Type 0 where
  pub slot : List Element
  pub found : get_elem? t.slots (pos_of e) ≡ some slot
  pub inside : In e slot

pub record IsValid (t : TimeWheel) : Type 0 where
  pub current : t.cur_slot < length t.slots
  pub slow : 1 < t.interval
  pub small : length t.slots * t.interval < 2 ^ 63
  -- An element of a slot is the one that the map has for its key, and stands where it says.
  pub seated :
      (i : ℕ) (l : List Element) (e : Element)
      → get_elem? t.slots i ≡ some l
      → In e l
      → (f : Element) × (lookup (key_of e) t.key_to_etask ≡ some f)
        × (f.address ≡ e.address)
        × (pos_of e ≡ i)
        × (pos_of f ≡ i)
  pub single :
      (i : ℕ) (l : List Element) (e g : Element)
      → get_elem? t.slots i ≡ some l
      → In e l
      → In g l
      → e.address ≡ g.address
      → e ≡ g
  pub named :
      (k : List ℕ) (f : Element)
      → lookup k t.key_to_etask ≡ some f
      → (pos_of f < length t.slots) × (f.address < t.next_address)
  pub unique :
      (j k : List ℕ) (f g : Element)
      → lookup j t.key_to_etask ≡ some f
      → lookup k t.key_to_etask ≡ some g
      → f.address ≡ g.address
      → j ≡ k
