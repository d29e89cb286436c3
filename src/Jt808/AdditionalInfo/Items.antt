-- ===== src/Jt808/AdditionalInfo/Items.antt =====
-- internal/protocol/jt808/additional_info.go: the reads of the item parser.
use tallerp_telemetry.Base.{
  ℕ, zero, suc, ◌+◌, ◌≤◌, ◌≡◌, ◌≢◌, List, [], ◌∷◌, ◌++◌, arith, ltb, length, Bytes, Outcome, ok,
  panic, index, slice, uint16_at, uint32_at, >>=-ne-panic, inl, inr, Bool-cases, take, drop, get_or,
}
use tallerp_telemetry.Jt808.AdditionalInfo.{
  AdditionalItem, plain_item, records_from, counted, cell_2g, cell_4g, access_point,
  decode_2g_cells, decode_4g_cells, decode_wifi, decode_lists, decode_scalar,
  decode_additional_item, item_at, items_from, parse_additional_items,
}

-- A reader that stays inside its record keeps the loop from panicking.
records_from-ne-panic :
    {A : Type 0} (read : Bytes → ℕ → Outcome A) (size : ℕ)
    → ((value : Bytes) (offset : ℕ) → offset + size ≤ length value → read value offset ≢ panic)
    → (count : ℕ) (value : Bytes) (offset : ℕ) → records_from read size count value offset ≢ panic
unfolding records_from
records_from-ne-panic read size safe zero value offset = λ p. cc
records_from-ne-panic read size safe (suc count) value offset =
    ground
      (arith, safe value offset, records_from-ne-panic read size safe count value (offset + size))

counted-ne-panic :
    {A : Type 0} (read : Bytes → ℕ → Outcome A) (size : ℕ)
    → ((value : Bytes) (offset : ℕ) → offset + size ≤ length value → read value offset ≢ panic)
    → (value : Bytes) → counted read size value ≢ panic
unfolding counted
counted-ne-panic read size safe [] = λ p. cc
counted-ne-panic read size safe (count ∷ rest) =
    records_from-ne-panic read size safe count (count ∷ rest) 1

cell_2g-ne-panic :
    (value : Bytes) (offset : ℕ) → offset + 8 ≤ length value → cell_2g value offset ≢ panic
unfolding cell_2g uint16_at index
cell_2g-ne-panic value offset h = ground arith

cell_4g-ne-panic :
    (value : Bytes) (offset : ℕ) → offset + 10 ≤ length value → cell_4g value offset ≢ panic
unfolding cell_4g uint16_at uint32_at index
cell_4g-ne-panic value offset h = ground arith

access_point-ne-panic :
    (value : Bytes) (offset : ℕ) → offset + 7 ≤ length value → access_point value offset ≢ panic
unfolding access_point slice index
access_point-ne-panic value offset h = ground arith

decode_lists-ne-panic : (item : AdditionalItem) (value : Bytes) → decode_lists item value ≢ panic
unfolding decode_lists decode_2g_cells decode_4g_cells decode_wifi
decode_lists-ne-panic item value = ground (
  arith,
  counted-ne-panic cell_2g 8 cell_2g-ne-panic value,
  counted-ne-panic cell_4g 10 cell_4g-ne-panic value,
  counted-ne-panic access_point 7 access_point-ne-panic value,
)

-- Each read stands behind the test of the value's length.
decode_scalar-ne-panic : (item : AdditionalItem) (value : Bytes) → decode_scalar item value ≢ panic
unfolding decode_scalar index uint16_at uint32_at
decode_scalar-ne-panic item value = ground arith

pub decode_additional_item-ne-panic :
    (item : AdditionalItem) (value : Bytes) → decode_additional_item item value ≢ panic
unfolding decode_additional_item
decode_additional_item-ne-panic item value =
    >>=-ne-panic (decode_scalar item value) _ (decode_scalar-ne-panic item value)
      (λ scalar _. decode_lists-ne-panic scalar value)

item_at-ne-panic : (body : Bytes) (offset : ℕ) → item_at body offset ≢ panic
unfolding item_at index slice
item_at-ne-panic body offset =
    let size = get_or body (offset + 1) 0 in
    let value = take size (drop (offset + 2) body) in
    ground (arith, decode_additional_item-ne-panic (plain_item (get_or body offset 0) value) value)

-- An item has two bytes at least.
item_at-bounds :
    (body : Bytes) (offset : ℕ) (item : AdditionalItem) (next : ℕ)
    → item_at body offset ≡ ok (item, next)
    → offset + 2 ≤ next
unfolding item_at
item_at-bounds body offset item next h = ground arith

items_from-ne-panic :
    (fuel : ℕ) (body : Bytes) (offset : ℕ) (items : List AdditionalItem)
    → length body ≤ offset + fuel
    → items_from fuel body offset items ≢ panic
unfolding items_from
items_from-ne-panic zero body offset items h = ground arith
items_from-ne-panic (suc fuel) body offset items h = elim (Bool-cases (ltb offset (length body))) [
  | inr past ↦ rw past (λ p. cc)
  | inl more ↦ rw more (
      >>=-ne-panic (item_at body offset) _ (item_at-ne-panic body offset) (λ found e.
        items_from-ne-panic fuel body found.1 (items ++ found.0 ∷ [])
          (omega (arith, item_at-bounds body offset found.0 found.1 e))))
]

-- The parser of the additional items ends within one round for each byte and does not panic,
-- whatever the bytes are.
pub parse_additional_items-ne-panic : (body : Bytes) → parse_additional_items body ≢ panic
unfolding parse_additional_items
parse_additional_items-ne-panic body = items_from-ne-panic (length body) body 0 [] (omega arith)
