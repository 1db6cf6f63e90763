-- ===== src/Common/OneLine.antt =====
-- read_one_line and write_one_line of src/common/common.h: the file of a virtual link holds one line.
use cbb.Prelude.{◌≡◌, refl, [], ◌∷◌, ◌++◌, none, some, ◌==◌, if◌then◌else◌, arith}
use cbb.Text.{Bytes}
use cbb.Text.Find.{Lacks}
use cbb.Posix.{Posix}

-- std::getline: up to the first end of line.
unfoldable pub get_line : Bytes → Bytes
get_line [] = []
get_line (c ∷ text) = let line = get_line text in if c == 10 then [] else c ∷ line

module _ (P : Posix) where
  unfoldable pub read_one_line : P.State → Bytes → Bytes
  unfolding get_line
  read_one_line s path = elim (P.read_text s path) [ none ↦ [] | some text ↦ get_line text ]

  -- `ofs << text << std::endl`
  unfoldable pub write_one_line : Bytes → Bytes → P.State → P.State
  write_one_line path text s = P.write_text path (text ++ 10 ∷ []) s

pub get_line-append : (line rest : Bytes) → Lacks 10 line → get_line (line ++ 10 ∷ rest) ≡ line
unfolding get_line
get_line-append [] rest lacks = refl
get_line-append (c ∷ line) rest lacks = ground (arith, get_line-append line rest lacks.1)
