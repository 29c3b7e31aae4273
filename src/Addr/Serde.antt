-- ===== src/Addr/Serde.antt =====
-- libnp/src/lib.rs: `Addr` as a serde value: a number where it has no host, else a text.
use nport.Prelude.{
  ℕ, suc, ◌%◌, Bool, true, false, ◌-◌, ◌^◌, ◌<◌, ◌≡◌, ◌↔◌, Option, none, some, if◌then◌else◌, ltb,
  leb, arith,
}
use nport.Prelude.Int.{ℤ, pos, negsuc}
use nport.Text.{Text}
use nport.Addr.Sockets.{Net}
use nport.Addr.{Addr, from_port, to_string, from_str}
use nport.Addr.RoundTrip.{IsHost, from_str-to_string}

-- An `f64`: a number has a sign, a whole part, and may have a fraction.
pub data Float : Type 0 where
  nan : Float
  infinite : (negative : Bool) → Float
  number : (negative : Bool) (whole : ℕ) (has_fraction : Bool) → Float

-- The values that the visitor takes.
pub data Value : Type 0 where
  float : Float → Value
  unsigned : ℕ → Value
  signed : ℤ → Value
  text : Text → Value

unfoldable pub serialize : Addr → Value
serialize a = elim a.host [ none ↦ unsigned a.port | some h ↦ text (to_string a) ]

-- The test is `v >= 0 && v <= i64::from(u16::MAX)`, and the port `v as u16`.
unfoldable pub visit_i64 : ℤ → Option Addr
visit_i64 (pos v) = if leb v 65535 then some (from_port (v % 65536)) else none
visit_i64 (negsuc v) = none

-- `v as i64` of a `u64` keeps the 64 bits: from 2 ^ 63 on the result is negative.
abbrev pub u64_as_i64 : ℕ → ℤ
u64_as_i64 v = if ltb v (2 ^ 63) then pos v else negsuc (2 ^ 64 - v - 1)

unfoldable pub visit_u64 : ℕ → Option Addr
visit_u64 v = visit_i64 (u64_as_i64 v)

-- `v as i64` of a float drops the fraction and stops at the ends of the range.
unfoldable pub f64_as_i64 : Float → ℤ
f64_as_i64 nan = pos 0
f64_as_i64 (infinite true) = negsuc (2 ^ 63 - 1)
f64_as_i64 (infinite false) = pos (2 ^ 63 - 1)
f64_as_i64 (number false whole has_fraction) =
    if ltb whole (2 ^ 63) then pos whole else pos (2 ^ 63 - 1)
f64_as_i64 (number true ℕ.zero has_fraction) = pos 0
f64_as_i64 (number true (suc whole) has_fraction) =
    if ltb whole (2 ^ 63) then negsuc whole else negsuc (2 ^ 63 - 1)

unfoldable pub visit_f64 : Float → Option Addr
visit_f64 v = visit_i64 (f64_as_i64 v)

module _ (net : Net) where
  unfoldable pub visit_str : Text → Option Addr
  visit_str v = from_str net v

  -- `deserialize_any` with the visitor
  unfoldable pub deserialize : Value → Option Addr
  deserialize (float v) = visit_f64 v
  deserialize (unsigned v) = visit_u64 v
  deserialize (signed v) = visit_i64 v
  deserialize (text v) = visit_str v

  read_back :
      (host : Option Text) (port : ℕ)
      → port < 65536
      → IsHost net host
      → deserialize (serialize (record { host = host; port = port }))
        ≡ some (record { host = host; port = port })
  unfolding deserialize serialize visit_u64 visit_i64 visit_str
  read_back none port h k = ground arith
  read_back (some host) port h k =
      from_str-to_string net (record { host = some host; port = port }) h k

  -- Serialising an address and deserialising the value gives the address back, for every `u16` port
  -- where its host, if it has one, is one that its text gives back.
  pub deserialize-serialize :
      (a : Addr) → a.port < 65536 → IsHost net a.host → deserialize (serialize a) ≡ some a
  deserialize-serialize a h k = read_back a.host a.port h k

-- Which value is which address: a whole number from 0 to 65535 is a port without a host; a float
-- counts without its fraction, and one that is no number as 0; a text is what it is parsed to.
abbrev pub IsRead : Net → Value → Addr → Type 0
IsRead net (unsigned v) a = (v < 65536) × (from_port v ≡ a)
IsRead net (signed (pos v)) a = (v < 65536) × (from_port v ≡ a)
IsRead net (signed (negsuc v)) a = ⊥
IsRead net (float nan) a = from_port 0 ≡ a
IsRead net (float (infinite negative)) a = ⊥
IsRead net (float (number false whole has_fraction)) a = (whole < 65536) × (from_port whole ≡ a)
IsRead net (float (number true whole has_fraction)) a = (whole ≡ 0) × (from_port 0 ≡ a)
IsRead net (text v) a = from_str net v ≡ some a

-- A `u64` is in its range.
abbrev pub IsU64 : Value → Type 0
IsU64 (unsigned v) = v < 2 ^ 64
IsU64 _ = Unit {0}

-- A value is read as an address exactly if it is a whole number from 0 to 65535, then as that port
-- without a host; a float whose whole part is one, then as that; a float that is no number, then as
-- port 0; or a text that parses as the address. All else is refused: larger numbers, those below 0,
-- and 64-bit numbers that are negative as an `i64`.
pub deserialize_iff :
    (net : Net) (v : Value) (a : Addr) → IsU64 v → (deserialize net v ≡ some a) ↔ IsRead net v a
unfolding deserialize visit_u64 visit_i64 visit_f64 f64_as_i64 visit_str
deserialize_iff net (unsigned v) a h = ground arith
deserialize_iff net (signed (pos v)) a h = ground arith
deserialize_iff net (signed (negsuc v)) a h = ground arith
deserialize_iff net (float nan) a h = ground arith
deserialize_iff net (float (infinite true)) a h = ground arith
deserialize_iff net (float (infinite false)) a h = ground arith
deserialize_iff net (float (number false whole has_fraction)) a h = ground arith
deserialize_iff net (float (number true ℕ.zero has_fraction)) a h = ground arith
deserialize_iff net (float (number true (suc whole) has_fraction)) a h = ground arith
deserialize_iff net (text v) a h = (λ e. e, λ e. e)
