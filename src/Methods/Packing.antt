-- ===== src/Methods/Packing.antt =====
-- The packed index of a method, which the translated bytecode carries.
use jelatine.Common.{◌+◌, ◌*◌, ◌%◌, ◌^◌, ◌<◌, ◌≡◌, bit_or, arith}
use jelatine.Common.Bits.{bit_or-disjoint, bit_and-mask}
use jelatine.Descriptor.{arguments_max}
use jelatine.Methods.{Method, create_packed_index, unpack_arguments, unpack_index}

-- What is packed from less than 2 ^ 4 slots of arguments and an index below 2 ^ 12 is unpacked again.
pub unpack-create_packed_index :
    (m : Method)
    → m.args_size < arguments_max
    → m.index < 2 ^ 12
    → (unpack_arguments (create_packed_index m) ≡ m.args_size)
      × (unpack_index (create_packed_index m) ≡ m.index)
unfolding create_packed_index unpack_arguments unpack_index
unpack-create_packed_index m lo hi =
    let sum : bit_or (m.index * 2 ^ 4) m.args_size % 2 ^ 16 ≡ m.index * 16 + m.args_size =
      omega (arith, bit_or-disjoint 4 m.index m.args_size lo) in
    rw sum (omega (arith, bit_and-mask 4 (m.index * 16 + m.args_size)), omega arith)
