-- ===== src/Logging/Levels.antt =====
-- Levels printed and parsed.
use Prim.Native.Char.{Char}
use Prim.Native.String.{String}
use goppstats.Prelude.{List, [], ◌∷◌, ◌≡◌, refl, arith, In, All, All-In, string_eq}
use goppstats.Prelude.Int.{ℤ, int_eq}
use goppstats.Prelude.Result.{ok}
use goppstats.Logging.{
  level_trace, level_debug, level_info, level_notice, level_warning, level_error, level_critical,
  to_upper, level_of, parse_level, level_name,
}

abbrev levels : List ℤ
levels =
    level_trace ∷ level_debug ∷ level_info ∷ level_notice ∷ level_warning ∷ level_error
    ∷ level_critical ∷ []

level_of-In : (text name : String) (l : ℤ) → level_of text name ≡ ok l → In l levels
unfolding level_of
level_of-In text name l e = ground (arith, e)

names-parse : (other : Char → Char) → All (λ l. parse_level other (level_name l) ≡ ok l) levels
unfolding parse_level level_name
names-parse other = (refl, (refl, (refl, (refl, (refl, (refl, (refl, tt)))))))

-- A level that was parsed is printed by a name that parses to it again.
pub parse_level-level_name :
    (other : Char → Char) (text : String) (l : ℤ)
    → parse_level other text ≡ ok l
    → parse_level other (level_name l) ≡ ok l
parse_level-level_name other text l e =
    All-In (λ x. parse_level other (level_name x) ≡ ok x) levels l (names-parse other)
      (unfold parse_level in level_of-In text (to_upper other text) l e)
