-- ===== src/Prelude/Texts.antt =====
-- Python's `needle in text`, `text[:n]` and `text.strip()`.
use Prim.Native.Nat.{ℕ, zero, suc}
use Prim.Native.String.{String}
use Prim.Native.Char.{Char, code}
use geofastmap_api.Prelude.Tests.{leb, ◌==◌, if◌then◌else◌}
use mathlib.Core.Bool.{Bool, ◌||◌, ◌&&◌}
use text.Mathlib.Text.{starts_with}

unfoldable pub contains_text : String → String → Bool
contains_text String.[] needle = starts_with String.[] needle
contains_text (String.◌∷◌ c s) needle =
    starts_with (String.◌∷◌ c s) needle || contains_text s needle

unfoldable pub cut : ℕ → String → String
cut zero s = String.[]
cut (suc n) String.[] = String.[]
cut (suc n) (String.◌∷◌ c s) = String.◌∷◌ c (cut n s)

-- `c.isspace()`
unfoldable pub is_space : Char → Bool
is_space c =
    let n = code c in
    (leb 9 n && leb n 13)
    || (leb 28 n && leb n 32)
    || n == 133
    || n == 160
    || n == 5760
    || (leb 8192 n && leb n 8202)
    || n == 8232
    || n == 8233
    || n == 8239
    || n == 8287
    || n == 12288

unfoldable pub lstrip : String → String
lstrip String.[] = String.[]
lstrip (String.◌∷◌ c s) = if is_space c then lstrip s else String.◌∷◌ c s

drop_space : Char → String → String
drop_space c String.[] = if is_space c then String.[] else String.◌∷◌ c String.[]
drop_space c (String.◌∷◌ d s) = String.◌∷◌ c (String.◌∷◌ d s)

unfoldable pub rstrip : String → String
unfolding drop_space
rstrip String.[] = String.[]
rstrip (String.◌∷◌ c s) = drop_space c (rstrip s)

-- `s.strip()`
unfoldable pub strip : String → String
unfolding lstrip rstrip is_space
strip s = lstrip (rstrip s)
