-- ===== src/Registry/Keys.antt =====
-- Which parser a name finds, after each operation that changes the names.
use duck_hunt.Prelude.{
  ℕ, ◌≡◌, refl, true, false, none, some, List, [], ◌∷◌, Text, arith, if◌then◌else◌, lookup, assign,
  erase, lookup-assign, lookup-erase,
}
use duck_hunt.Parser.{Parser, has_name, answers_to}
use duck_hunt.Registry.{
  FormatMap, Registry, assign_all, erase_all, register_parser, get_parser, deref, is_built_in,
  drop_parser, unregister_parser,
}

pub lookup-assign_all :
    (ks : List Text) (j : Text) (i : ℕ) (m : FormatMap)
    → lookup j (assign_all ks i m) ≡ (if has_name j ks then some i else lookup j m)
unfolding assign_all
lookup-assign_all [] j i m = refl
lookup-assign_all (k ∷ ks) j i m =
    ground (arith, lookup-assign_all ks j i (assign k i m), lookup-assign k j i m)

pub lookup-erase_all :
    (ks : List Text) (j : Text) (m : FormatMap)
    → lookup j (erase_all ks m) ≡ (if has_name j ks then none else lookup j m)
unfolding erase_all
lookup-erase_all [] j m = refl
lookup-erase_all (k ∷ ks) j m =
    ground (arith, lookup-erase_all ks j (erase k m), lookup-erase k j m)

-- After a registration the parser's name and aliases find it, also those that found another
-- parser before, and every other name finds what it found.
pub get_parser-register_parser :
    (j : Text) (p : Parser) (r : Registry)
    → get_parser j (register_parser (some p) r)
      ≡ (if answers_to p j then some r.next_id else get_parser j r)
unfolding get_parser register_parser
get_parser-register_parser j p r =
    lookup-assign_all (p.format_name ∷ p.aliases) j r.next_id r.format_map

pub get_parser-drop_parser :
    (j : Text) (p : Parser) (r : Registry)
    → get_parser j (drop_parser p r) ≡ (if answers_to p j then none else get_parser j r)
unfolding get_parser drop_parser
get_parser-drop_parser j p r = lookup-erase_all (p.format_name ∷ p.aliases) j r.format_map

-- An unregistration that is not refused succeeds with these removals.
pub unregister_parser-drop_parser :
    (k : Text) (i : ℕ) (p : Parser) (r : Registry)
    → get_parser k r ≡ some i
    → is_built_in k r ≡ false
    → deref r.parsers i ≡ some p
    → unregister_parser k r ≡ some (true, drop_parser p r)
unfolding get_parser unregister_parser
unregister_parser-drop_parser k i p r g b d = ground arith
