-- ===== src/Asm/Regs.antt =====
-- The registers: compiler/asm/regs.go.
use wrela.Prelude.{ℕ, Bool, true, false, List, [], ◌∷◌, Option, none, some, if◌then◌else◌}
use wrela.Bytes.{Bytes, bytes_eq}

pub record Reg : Type 0 where
  pub name : Bytes
  pub width : ℕ
  pub low3 : ℕ
  pub high : Bool
  pub rex : Bool
  pub control : Bool
  pub segment : Bool

-- The zero `Reg`.
abbrev pub no_reg : Reg
no_reg = record {
  name = [];
  width = 0;
  low3 = 0;
  high = false;
  rex = false;
  control = false;
  segment = false;
}

abbrev add : Bytes → ℕ → ℕ → Bool → Bool → Bool → Reg
add name width low3 high rex control = record {
  name = name;
  width = width;
  low3 = low3;
  high = high;
  rex = rex;
  control = control;
  segment = false;
}

abbrev add_segment : Bytes → ℕ → Reg
add_segment name low3 = record no_reg { name = name; width = 16; low3 = low3; segment = true }

-- The map `regs` as `init` fills it; no name is added twice.
abbrev pub regs : List Reg
regs =
    add (b'r' ∷ b'a' ∷ b'x' ∷ []) 64 0 false false false
    ∷ add (b'e' ∷ b'a' ∷ b'x' ∷ []) 32 0 false false false
    ∷ add (b'a' ∷ b'x' ∷ []) 16 0 false false false
    ∷ add (b'a' ∷ b'l' ∷ []) 8 0 false false false
    ∷ add (b'a' ∷ b'h' ∷ []) 8 4 false false false
    ∷ add (b'r' ∷ b'c' ∷ b'x' ∷ []) 64 1 false false false
    ∷ add (b'e' ∷ b'c' ∷ b'x' ∷ []) 32 1 false false false
    ∷ add (b'c' ∷ b'x' ∷ []) 16 1 false false false
    ∷ add (b'c' ∷ b'l' ∷ []) 8 1 false false false
    ∷ add (b'c' ∷ b'h' ∷ []) 8 5 false false false
    ∷ add (b'r' ∷ b'd' ∷ b'x' ∷ []) 64 2 false false false
    ∷ add (b'e' ∷ b'd' ∷ b'x' ∷ []) 32 2 false false false
    ∷ add (b'd' ∷ b'x' ∷ []) 16 2 false false false
    ∷ add (b'd' ∷ b'l' ∷ []) 8 2 false false false
    ∷ add (b'd' ∷ b'h' ∷ []) 8 6 false false false
    ∷ add (b'r' ∷ b'b' ∷ b'x' ∷ []) 64 3 false false false
    ∷ add (b'e' ∷ b'b' ∷ b'x' ∷ []) 32 3 false false false
    ∷ add (b'b' ∷ b'x' ∷ []) 16 3 false false false
    ∷ add (b'b' ∷ b'l' ∷ []) 8 3 false false false
    ∷ add (b'r' ∷ b's' ∷ b'p' ∷ []) 64 4 false false false
    ∷ add (b'e' ∷ b's' ∷ b'p' ∷ []) 32 4 false false false
    ∷ add (b's' ∷ b'p' ∷ []) 16 4 false false false
    ∷ add (b's' ∷ b'p' ∷ b'l' ∷ []) 8 4 false true false
    ∷ add (b'r' ∷ b'b' ∷ b'p' ∷ []) 64 5 false false false
    ∷ add (b'e' ∷ b'b' ∷ b'p' ∷ []) 32 5 false false false
    ∷ add (b'b' ∷ b'p' ∷ []) 16 5 false false false
    ∷ add (b'b' ∷ b'p' ∷ b'l' ∷ []) 8 5 false true false
    ∷ add (b'r' ∷ b's' ∷ b'i' ∷ []) 64 6 false false false
    ∷ add (b'e' ∷ b's' ∷ b'i' ∷ []) 32 6 false false false
    ∷ add (b's' ∷ b'i' ∷ []) 16 6 false false false
    ∷ add (b's' ∷ b'i' ∷ b'l' ∷ []) 8 6 false true false
    ∷ add (b'r' ∷ b'd' ∷ b'i' ∷ []) 64 7 false false false
    ∷ add (b'e' ∷ b'd' ∷ b'i' ∷ []) 32 7 false false false
    ∷ add (b'd' ∷ b'i' ∷ []) 16 7 false false false
    ∷ add (b'd' ∷ b'i' ∷ b'l' ∷ []) 8 7 false true false
    ∷ add (b'r' ∷ b'8' ∷ []) 64 0 true false false
    ∷ add (b'r' ∷ b'9' ∷ []) 64 1 true false false
    ∷ add (b'r' ∷ b'1' ∷ b'0' ∷ []) 64 2 true false false
    ∷ add (b'r' ∷ b'1' ∷ b'1' ∷ []) 64 3 true false false
    ∷ add (b'r' ∷ b'1' ∷ b'2' ∷ []) 64 4 true false false
    ∷ add (b'r' ∷ b'1' ∷ b'3' ∷ []) 64 5 true false false
    ∷ add (b'r' ∷ b'1' ∷ b'4' ∷ []) 64 6 true false false
    ∷ add (b'r' ∷ b'1' ∷ b'5' ∷ []) 64 7 true false false
    ∷ add (b'r' ∷ b'8' ∷ b'd' ∷ []) 32 0 true false false
    ∷ add (b'r' ∷ b'9' ∷ b'd' ∷ []) 32 1 true false false
    ∷ add (b'r' ∷ b'1' ∷ b'0' ∷ b'd' ∷ []) 32 2 true false false
    ∷ add (b'r' ∷ b'1' ∷ b'1' ∷ b'd' ∷ []) 32 3 true false false
    ∷ add (b'r' ∷ b'1' ∷ b'2' ∷ b'd' ∷ []) 32 4 true false false
    ∷ add (b'r' ∷ b'1' ∷ b'3' ∷ b'd' ∷ []) 32 5 true false false
    ∷ add (b'r' ∷ b'1' ∷ b'4' ∷ b'd' ∷ []) 32 6 true false false
    ∷ add (b'r' ∷ b'1' ∷ b'5' ∷ b'd' ∷ []) 32 7 true false false
    ∷ add (b'r' ∷ b'8' ∷ b'w' ∷ []) 16 0 true false false
    ∷ add (b'r' ∷ b'9' ∷ b'w' ∷ []) 16 1 true false false
    ∷ add (b'r' ∷ b'1' ∷ b'0' ∷ b'w' ∷ []) 16 2 true false false
    ∷ add (b'r' ∷ b'1' ∷ b'1' ∷ b'w' ∷ []) 16 3 true false false
    ∷ add (b'r' ∷ b'1' ∷ b'2' ∷ b'w' ∷ []) 16 4 true false false
    ∷ add (b'r' ∷ b'1' ∷ b'3' ∷ b'w' ∷ []) 16 5 true false false
    ∷ add (b'r' ∷ b'1' ∷ b'4' ∷ b'w' ∷ []) 16 6 true false false
    ∷ add (b'r' ∷ b'1' ∷ b'5' ∷ b'w' ∷ []) 16 7 true false false
    ∷ add (b'r' ∷ b'8' ∷ b'b' ∷ []) 8 0 true false false
    ∷ add (b'r' ∷ b'9' ∷ b'b' ∷ []) 8 1 true false false
    ∷ add (b'r' ∷ b'1' ∷ b'0' ∷ b'b' ∷ []) 8 2 true false false
    ∷ add (b'r' ∷ b'1' ∷ b'1' ∷ b'b' ∷ []) 8 3 true false false
    ∷ add (b'r' ∷ b'1' ∷ b'2' ∷ b'b' ∷ []) 8 4 true false false
    ∷ add (b'r' ∷ b'1' ∷ b'3' ∷ b'b' ∷ []) 8 5 true false false
    ∷ add (b'r' ∷ b'1' ∷ b'4' ∷ b'b' ∷ []) 8 6 true false false
    ∷ add (b'r' ∷ b'1' ∷ b'5' ∷ b'b' ∷ []) 8 7 true false false
    ∷ add (b'c' ∷ b'r' ∷ b'3' ∷ []) 64 3 false false true
    ∷ add_segment (b'e' ∷ b's' ∷ []) 0
    ∷ add_segment (b's' ∷ b's' ∷ []) 2
    ∷ add_segment (b'd' ∷ b's' ∷ []) 3
    ∷ add_segment (b'f' ∷ b's' ∷ []) 4
    ∷ add_segment (b'g' ∷ b's' ∷ []) 5
    ∷ []

unfoldable pub find_reg : Bytes → List Reg → Option Reg
find_reg name [] = none
find_reg name (r ∷ rs) = if bytes_eq r.name name then some r else find_reg name rs

-- `Lookup`
unfoldable pub lookup : Bytes → Option Reg
unfolding find_reg
lookup name = find_reg name regs
