-- ===== src/Prelude/LowerCase.antt =====
-- unicode.ToLower on code points: the simple lower case of Unicode 14, to which
-- Unicode 15 adds no pair.
use Prim.Native.Nat.{ℕ, ◌+◌, ◌-◌, ◌%◌}
use mathlib.Core.Bool.{Bool, true, false, ◌&&◌}
use mathlib.Core.List.{List, [], ◌∷◌}
use go_symphony.Prelude.Tests.{ltb, leb, ◌==◌, if◌then◌else◌}

-- Every `step`-th code point from `first` to `last` goes up by `plus`, or down by `minus`.
record CaseRange : Type 0 where
  first : ℕ
  last : ℕ
  step : ℕ
  plus : ℕ
  minus : ℕ

abbrev case_range : ℕ → ℕ → ℕ → ℕ → ℕ → CaseRange
case_range first last step plus minus = record {
  first = first;
  last = last;
  step = step;
  plus = plus;
  minus = minus;
}

abbrev in_case_range : ℕ → CaseRange → Bool
in_case_range c r = leb r.first c && leb c r.last && (c - r.first) % r.step == 0

-- The code points that are not ASCII and have another lower case.
abbrev upper_cases : List CaseRange
upper_cases =
    case_range 0xc0 0xd6 1 0x20 0
    ∷ case_range 0xd8 0xde 1 0x20 0
    ∷ case_range 0x100 0x12e 2 0x1 0
    ∷ case_range 0x130 0x130 1 0 0xc7
    ∷ case_range 0x132 0x136 2 0x1 0
    ∷ case_range 0x139 0x147 2 0x1 0
    ∷ case_range 0x14a 0x176 2 0x1 0
    ∷ case_range 0x178 0x178 1 0 0x79
    ∷ case_range 0x179 0x17d 2 0x1 0
    ∷ case_range 0x181 0x181 1 0xd2 0
    ∷ case_range 0x182 0x184 2 0x1 0
    ∷ case_range 0x186 0x186 1 0xce 0
    ∷ case_range 0x187 0x187 1 0x1 0
    ∷ case_range 0x189 0x18a 1 0xcd 0
    ∷ case_range 0x18b 0x18b 1 0x1 0
    ∷ case_range 0x18e 0x18e 1 0x4f 0
    ∷ case_range 0x18f 0x18f 1 0xca 0
    ∷ case_range 0x190 0x190 1 0xcb 0
    ∷ case_range 0x191 0x191 1 0x1 0
    ∷ case_range 0x193 0x193 1 0xcd 0
    ∷ case_range 0x194 0x194 1 0xcf 0
    ∷ case_range 0x196 0x196 1 0xd3 0
    ∷ case_range 0x197 0x197 1 0xd1 0
    ∷ case_range 0x198 0x198 1 0x1 0
    ∷ case_range 0x19c 0x19c 1 0xd3 0
    ∷ case_range 0x19d 0x19d 1 0xd5 0
    ∷ case_range 0x19f 0x19f 1 0xd6 0
    ∷ case_range 0x1a0 0x1a4 2 0x1 0
    ∷ case_range 0x1a6 0x1a6 1 0xda 0
    ∷ case_range 0x1a7 0x1a7 1 0x1 0
    ∷ case_range 0x1a9 0x1a9 1 0xda 0
    ∷ case_range 0x1ac 0x1ac 1 0x1 0
    ∷ case_range 0x1ae 0x1ae 1 0xda 0
    ∷ case_range 0x1af 0x1af 1 0x1 0
    ∷ case_range 0x1b1 0x1b2 1 0xd9 0
    ∷ case_range 0x1b3 0x1b5 2 0x1 0
    ∷ case_range 0x1b7 0x1b7 1 0xdb 0
    ∷ case_range 0x1b8 0x1b8 1 0x1 0
    ∷ case_range 0x1bc 0x1bc 1 0x1 0
    ∷ case_range 0x1c4 0x1c4 1 0x2 0
    ∷ case_range 0x1c5 0x1c5 1 0x1 0
    ∷ case_range 0x1c7 0x1c7 1 0x2 0
    ∷ case_range 0x1c8 0x1c8 1 0x1 0
    ∷ case_range 0x1ca 0x1ca 1 0x2 0
    ∷ case_range 0x1cb 0x1db 2 0x1 0
    ∷ case_range 0x1de 0x1ee 2 0x1 0
    ∷ case_range 0x1f1 0x1f1 1 0x2 0
    ∷ case_range 0x1f2 0x1f4 2 0x1 0
    ∷ case_range 0x1f6 0x1f6 1 0 0x61
    ∷ case_range 0x1f7 0x1f7 1 0 0x38
    ∷ case_range 0x1f8 0x21e 2 0x1 0
    ∷ case_range 0x220 0x220 1 0 0x82
    ∷ case_range 0x222 0x232 2 0x1 0
    ∷ case_range 0x23a 0x23a 1 0x2a2b 0
    ∷ case_range 0x23b 0x23b 1 0x1 0
    ∷ case_range 0x23d 0x23d 1 0 0xa3
    ∷ case_range 0x23e 0x23e 1 0x2a28 0
    ∷ case_range 0x241 0x241 1 0x1 0
    ∷ case_range 0x243 0x243 1 0 0xc3
    ∷ case_range 0x244 0x244 1 0x45 0
    ∷ case_range 0x245 0x245 1 0x47 0
    ∷ case_range 0x246 0x24e 2 0x1 0
    ∷ case_range 0x370 0x372 2 0x1 0
    ∷ case_range 0x376 0x376 1 0x1 0
    ∷ case_range 0x37f 0x37f 1 0x74 0
    ∷ case_range 0x386 0x386 1 0x26 0
    ∷ case_range 0x388 0x38a 1 0x25 0
    ∷ case_range 0x38c 0x38c 1 0x40 0
    ∷ case_range 0x38e 0x38f 1 0x3f 0
    ∷ case_range 0x391 0x3a1 1 0x20 0
    ∷ case_range 0x3a3 0x3ab 1 0x20 0
    ∷ case_range 0x3cf 0x3cf 1 0x8 0
    ∷ case_range 0x3d8 0x3ee 2 0x1 0
    ∷ case_range 0x3f4 0x3f4 1 0 0x3c
    ∷ case_range 0x3f7 0x3f7 1 0x1 0
    ∷ case_range 0x3f9 0x3f9 1 0 0x7
    ∷ case_range 0x3fa 0x3fa 1 0x1 0
    ∷ case_range 0x3fd 0x3ff 1 0 0x82
    ∷ case_range 0x400 0x40f 1 0x50 0
    ∷ case_range 0x410 0x42f 1 0x20 0
    ∷ case_range 0x460 0x480 2 0x1 0
    ∷ case_range 0x48a 0x4be 2 0x1 0
    ∷ case_range 0x4c0 0x4c0 1 0xf 0
    ∷ case_range 0x4c1 0x4cd 2 0x1 0
    ∷ case_range 0x4d0 0x52e 2 0x1 0
    ∷ case_range 0x531 0x556 1 0x30 0
    ∷ case_range 0x10a0 0x10c5 1 0x1c60 0
    ∷ case_range 0x10c7 0x10c7 1 0x1c60 0
    ∷ case_range 0x10cd 0x10cd 1 0x1c60 0
    ∷ case_range 0x13a0 0x13ef 1 0x97d0 0
    ∷ case_range 0x13f0 0x13f5 1 0x8 0
    ∷ case_range 0x1c90 0x1cba 1 0 0xbc0
    ∷ case_range 0x1cbd 0x1cbf 1 0 0xbc0
    ∷ case_range 0x1e00 0x1e94 2 0x1 0
    ∷ case_range 0x1e9e 0x1e9e 1 0 0x1dbf
    ∷ case_range 0x1ea0 0x1efe 2 0x1 0
    ∷ case_range 0x1f08 0x1f0f 1 0 0x8
    ∷ case_range 0x1f18 0x1f1d 1 0 0x8
    ∷ case_range 0x1f28 0x1f2f 1 0 0x8
    ∷ case_range 0x1f38 0x1f3f 1 0 0x8
    ∷ case_range 0x1f48 0x1f4d 1 0 0x8
    ∷ case_range 0x1f59 0x1f5f 2 0 0x8
    ∷ case_range 0x1f68 0x1f6f 1 0 0x8
    ∷ case_range 0x1f88 0x1f8f 1 0 0x8
    ∷ case_range 0x1f98 0x1f9f 1 0 0x8
    ∷ case_range 0x1fa8 0x1faf 1 0 0x8
    ∷ case_range 0x1fb8 0x1fb9 1 0 0x8
    ∷ case_range 0x1fba 0x1fbb 1 0 0x4a
    ∷ case_range 0x1fbc 0x1fbc 1 0 0x9
    ∷ case_range 0x1fc8 0x1fcb 1 0 0x56
    ∷ case_range 0x1fcc 0x1fcc 1 0 0x9
    ∷ case_range 0x1fd8 0x1fd9 1 0 0x8
    ∷ case_range 0x1fda 0x1fdb 1 0 0x64
    ∷ case_range 0x1fe8 0x1fe9 1 0 0x8
    ∷ case_range 0x1fea 0x1feb 1 0 0x70
    ∷ case_range 0x1fec 0x1fec 1 0 0x7
    ∷ case_range 0x1ff8 0x1ff9 1 0 0x80
    ∷ case_range 0x1ffa 0x1ffb 1 0 0x7e
    ∷ case_range 0x1ffc 0x1ffc 1 0 0x9
    ∷ case_range 0x2126 0x2126 1 0 0x1d5d
    ∷ case_range 0x212a 0x212a 1 0 0x20bf
    ∷ case_range 0x212b 0x212b 1 0 0x2046
    ∷ case_range 0x2132 0x2132 1 0x1c 0
    ∷ case_range 0x2160 0x216f 1 0x10 0
    ∷ case_range 0x2183 0x2183 1 0x1 0
    ∷ case_range 0x24b6 0x24cf 1 0x1a 0
    ∷ case_range 0x2c00 0x2c2f 1 0x30 0
    ∷ case_range 0x2c60 0x2c60 1 0x1 0
    ∷ case_range 0x2c62 0x2c62 1 0 0x29f7
    ∷ case_range 0x2c63 0x2c63 1 0 0xee6
    ∷ case_range 0x2c64 0x2c64 1 0 0x29e7
    ∷ case_range 0x2c67 0x2c6b 2 0x1 0
    ∷ case_range 0x2c6d 0x2c6d 1 0 0x2a1c
    ∷ case_range 0x2c6e 0x2c6e 1 0 0x29fd
    ∷ case_range 0x2c6f 0x2c6f 1 0 0x2a1f
    ∷ case_range 0x2c70 0x2c70 1 0 0x2a1e
    ∷ case_range 0x2c72 0x2c72 1 0x1 0
    ∷ case_range 0x2c75 0x2c75 1 0x1 0
    ∷ case_range 0x2c7e 0x2c7f 1 0 0x2a3f
    ∷ case_range 0x2c80 0x2ce2 2 0x1 0
    ∷ case_range 0x2ceb 0x2ced 2 0x1 0
    ∷ case_range 0x2cf2 0x2cf2 1 0x1 0
    ∷ case_range 0xa640 0xa66c 2 0x1 0
    ∷ case_range 0xa680 0xa69a 2 0x1 0
    ∷ case_range 0xa722 0xa72e 2 0x1 0
    ∷ case_range 0xa732 0xa76e 2 0x1 0
    ∷ case_range 0xa779 0xa77b 2 0x1 0
    ∷ case_range 0xa77d 0xa77d 1 0 0x8a04
    ∷ case_range 0xa77e 0xa786 2 0x1 0
    ∷ case_range 0xa78b 0xa78b 1 0x1 0
    ∷ case_range 0xa78d 0xa78d 1 0 0xa528
    ∷ case_range 0xa790 0xa792 2 0x1 0
    ∷ case_range 0xa796 0xa7a8 2 0x1 0
    ∷ case_range 0xa7aa 0xa7aa 1 0 0xa544
    ∷ case_range 0xa7ab 0xa7ab 1 0 0xa54f
    ∷ case_range 0xa7ac 0xa7ac 1 0 0xa54b
    ∷ case_range 0xa7ad 0xa7ad 1 0 0xa541
    ∷ case_range 0xa7ae 0xa7ae 1 0 0xa544
    ∷ case_range 0xa7b0 0xa7b0 1 0 0xa512
    ∷ case_range 0xa7b1 0xa7b1 1 0 0xa52a
    ∷ case_range 0xa7b2 0xa7b2 1 0 0xa515
    ∷ case_range 0xa7b3 0xa7b3 1 0x3a0 0
    ∷ case_range 0xa7b4 0xa7c2 2 0x1 0
    ∷ case_range 0xa7c4 0xa7c4 1 0 0x30
    ∷ case_range 0xa7c5 0xa7c5 1 0 0xa543
    ∷ case_range 0xa7c6 0xa7c6 1 0 0x8a38
    ∷ case_range 0xa7c7 0xa7c9 2 0x1 0
    ∷ case_range 0xa7d0 0xa7d0 1 0x1 0
    ∷ case_range 0xa7d6 0xa7d8 2 0x1 0
    ∷ case_range 0xa7f5 0xa7f5 1 0x1 0
    ∷ case_range 0xff21 0xff3a 1 0x20 0
    ∷ case_range 0x10400 0x10427 1 0x28 0
    ∷ case_range 0x104b0 0x104d3 1 0x28 0
    ∷ case_range 0x10570 0x1057a 1 0x27 0
    ∷ case_range 0x1057c 0x1058a 1 0x27 0
    ∷ case_range 0x1058c 0x10592 1 0x27 0
    ∷ case_range 0x10594 0x10595 1 0x27 0
    ∷ case_range 0x10c80 0x10cb2 1 0x40 0
    ∷ case_range 0x118a0 0x118bf 1 0x20 0
    ∷ case_range 0x16e40 0x16e5f 1 0x20 0
    ∷ case_range 0x1e900 0x1e921 1 0x22 0
    ∷ []

unfoldable lower_from : List CaseRange → ℕ → ℕ
lower_from [] c = c
lower_from (r ∷ rs) c = elim (in_case_range c r) [
  | true ↦ c + r.plus - r.minus
  | false ↦ lower_from rs c
]

unfoldable pub lower : ℕ → ℕ
unfolding lower_from
lower c = elim (ltb c 128) [
  | true ↦ if leb b'A' c && leb c b'Z' then c + 32 else c
  | false ↦ lower_from upper_cases c
]
