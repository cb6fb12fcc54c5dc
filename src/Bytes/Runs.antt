-- ===== src/Bytes/Runs.antt =====
-- Runs of the byte buffer on concrete arrays.
use sylar_net_server_framewo.Common.{
  ℕ, ◌+◌, ◌≡◌, ◌<◌, ◌⊎◌, refl, inl, inr, List, [], ◌∷◌, ◌++◌, arith, take, drop,
}
use sylar_net_server_framewo.Common.Int.{negsuc}
use sylar_net_server_framewo.Bytes.Chain.{done, out_of_range, fault, ◌>>=◌}
use sylar_net_server_framewo.Bytes.State.{
  little, ByteArray, contents, IsValid, write, read, set_position,
}
use sylar_net_server_framewo.Bytes.Write.{write-Written, Written}
use sylar_net_server_framewo.Bytes.Read.{read-Readout, Readout, set_position-cases, Moved}
use sylar_net_server_framewo.Bytes.RoundTrip.{read_at, read_at-contents, read-write}
use sylar_net_server_framewo.Bytes.Words.{
  byteswap, byteswap-byteswap, write_fixed, read_fixed, read_fixed-write_fixed,
}
use sylar_net_server_framewo.Bytes.Varint.{leb128}
use sylar_net_server_framewo.Bytes.Zigzag.{
  decode_zigzag, encode_zigzag, decode_zigzag-encode_zigzag64,
}

-- Three of six bytes are read, in blocks of four.
abbrev two_blocks : ByteArray
two_blocks = record {
  base_size = 4;
  position = 3;
  capacity = 8;
  size = 6;
  endian = little;
  nodes = (1 ∷ 2 ∷ 3 ∷ 4 ∷ []) ∷ (5 ∷ 6 ∷ 7 ∷ 8 ∷ []) ∷ [];
  cur = 0;
  junk = 0;
}

two_blocks-IsValid : IsValid two_blocks
two_blocks-IsValid = record {
  base_pos = omega arith;
  some_node = omega arith;
  blocks = (refl, (refl, tt));
  cap = refl;
  position-le = omega arith;
  size-le = omega arith;
  cur_low = omega arith;
  cur_high = omega arith;
}

-- The same array, written up to its end.
abbrev at_end : ByteArray
at_end = record two_blocks { position = 6; cur = 1 }

at_end-IsValid : IsValid at_end
at_end-IsValid = record {
  base_pos = omega arith;
  some_node = omega arith;
  blocks = (refl, (refl, tt));
  cap = refl;
  position-le = omega arith;
  size-le = omega arith;
  cur_low = omega arith;
  cur_high = omega arith;
}

-- A full array, whose position was set back.
abbrev rewound : ByteArray
rewound = record two_blocks { size = 8 }

rewound-IsValid : IsValid rewound
rewound-IsValid = record {
  base_pos = omega arith;
  some_node = omega arith;
  blocks = (refl, (refl, tt));
  cap = refl;
  position-le = omega arith;
  size-le = omega arith;
  cur_low = omega arith;
  cur_high = omega arith;
}

-- The number 300 in the format of seven bits a byte, and two more bytes.
abbrev coded : ByteArray
coded = record two_blocks {
  position = 0;
  nodes = (172 ∷ 2 ∷ 7 ∷ 8 ∷ []) ∷ (0 ∷ 0 ∷ 0 ∷ 0 ∷ []) ∷ [];
  size = 4;
}

coded-IsValid : IsValid coded
coded-IsValid = record {
  base_pos = omega arith;
  some_node = omega arith;
  blocks = (refl, (refl, tt));
  cap = refl;
  position-le = omega arith;
  size-le = omega arith;
  cur_low = omega arith;
  cur_high = omega arith;
}

coded-starts64 : drop 0 (contents coded) ≡ leb128 9 300 ++ (7 ∷ 8 ∷ [])
unfolding leb128
coded-starts64 = refl

write_example :
    (b' : ByteArray) × (write (9 ∷ 9 ∷ []) two_blocks ≡ done b')
    × Written (9 ∷ 9 ∷ []) two_blocks b'
write_example = write-Written (9 ∷ 9 ∷ []) two_blocks two_blocks-IsValid (inr (omega arith))

read_example :
    (out : List ℕ) × (b' : ByteArray) × (read 2 two_blocks ≡ done (out, b'))
    × Readout 2 two_blocks out b'
read_example = read-Readout 2 two_blocks two_blocks-IsValid (omega arith) (omega arith)

set_position_example :
    ((5 < two_blocks.capacity)
      × (b' : ByteArray) × (set_position 5 two_blocks ≡ done b')
      × Moved 5 two_blocks b')
    ⊎ (((5 ≡ two_blocks.capacity) × (set_position 5 two_blocks ≡ fault))
        ⊎ ((two_blocks.capacity < 5) × (set_position 5 two_blocks ≡ out_of_range)))
set_position_example = set_position-cases 5 two_blocks two_blocks-IsValid

read_at_example :
    (b' : ByteArray) × (read_at 2 3 two_blocks ≡ done (take 3 (drop 2 (contents two_blocks)), b'))
    × IsValid b'
    × (b'.position ≡ 2 + 3)
    × (contents b' ≡ contents two_blocks)
read_at_example = read_at-contents 2 3 two_blocks two_blocks-IsValid (omega arith) (omega arith)

read-write_example :
    (b' : ByteArray) × ((write (9 ∷ []) at_end >>= read_at 6 1) ≡ done (9 ∷ [], b'))
    × IsValid b'
    × (b'.position ≡ 6 + 1)
read-write_example = read-write (9 ∷ []) at_end at_end-IsValid (inl refl) (omega arith)

byteswap_example : byteswap 2 (byteswap 2 513) ≡ 513
byteswap_example = byteswap-byteswap 2 513 (omega arith)

read_fixed_example :
    (b' : ByteArray) × ((write_fixed little 2 513 at_end >>= λ c.
    set_position 6 c >>= read_fixed little 2)
      ≡ done (513, b'))
    × IsValid b'
    × (b'.position ≡ 6 + 2)
read_fixed_example =
    read_fixed-write_fixed little 2 513 at_end at_end-IsValid (inl refl) (omega arith) (omega arith)

zigzag64_example : decode_zigzag 64 (encode_zigzag 64 (negsuc 149)) ≡ negsuc 149
zigzag64_example = decode_zigzag-encode_zigzag64 (negsuc 149) (omega arith)
