-- ===== src/DhcpOption/Encode.antt =====
-- dhcp/src/DhcpOption.cpp: `dhcp_option_field_real_value_to_network_data` and
-- `DhcpOption::to_network_data`.
use klevret.Prelude.{ℕ, ◌%◌, ◌^◌, ◌==◌, if◌then◌else◌, List, [], ◌∷◌, ◌++◌, wrap_ℤ, eq_ℤ}
use klevret.Prelude.{Result, ok, undefined, ◌>>=◌}
use klevret.Endians.{Endian, to_le, in_memory}
use klevret.IpAddress
use klevret.IpAddress.Mask
use klevret.OptionDescription.{variable_length}
use klevret.DhcpOption.{
  DhcpOption, RealValue, int32, uint32, uint16, uint8, bytes, text, address, mask,
}
use klevret.DhcpOption.{address_with_mask, two_addresses, boolean}

-- The integers are copied out of the host's memory. There is no case for `bool`: the function ends
-- without a `return`, which is undefined.
unfoldable pub value_to_network_data : Endian → RealValue → Result (List ℕ)
value_to_network_data native (int32 v) = ok (in_memory native (to_le 4 (wrap_ℤ (2 ^ 32) v)))
value_to_network_data native (uint32 v) = ok (in_memory native (to_le 4 v))
value_to_network_data native (uint16 v) = ok (in_memory native (to_le 2 v))
value_to_network_data native (uint8 v) = ok (v ∷ [])
value_to_network_data native (bytes v) = ok v
value_to_network_data native (text v) = ok v
value_to_network_data native (address a) = ok (IpAddress.to_network_data a)
value_to_network_data native (mask m) = ok (Mask.to_network_data m)
value_to_network_data native (address_with_mask a m) =
    ok (IpAddress.to_network_data a ++ Mask.to_network_data m)
value_to_network_data native (two_addresses a b) =
    ok (IpAddress.to_network_data a ++ IpAddress.to_network_data b)
value_to_network_data native (boolean b) = undefined

-- The loop over `real_values`.
unfoldable pub values_to_network_data : Endian → List RealValue → Result (List ℕ)
values_to_network_data native [] = ok []
values_to_network_data native (v ∷ vs) = do
  value_data ← value_to_network_data native v
  more ← values_to_network_data native vs
  ok (value_data ++ more)

-- `push_back` on a vector of bytes keeps the lowest 8 bits.
unfoldable pub to_network_data : Endian → DhcpOption → Result (List ℕ)
unfolding values_to_network_data value_to_network_data
to_network_data native o =
    let length_byte = wrap_ℤ 256 (
      if eq_ℤ o.description.payload_length variable_length
      then o.real_payload_length
      else o.description.payload_length) in
    if o.description.code == 0
    then ok (0 ∷ [])
    else if o.description.code == 255
    then ok (255 ∷ [])
    else (do
      payload ← values_to_network_data native o.real_values
      ok ((o.description.code % 256) ∷ length_byte ∷ payload))
