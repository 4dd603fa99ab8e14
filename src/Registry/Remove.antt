-- ===== src/Registry/Remove.antt =====
-- What the SQL functions that load and unload a parser do to the names, and where they fail.
use duck_hunt.Prelude.{
  ℕ, ◌≡◌, refl, ◌∙◌, Bool, true, false, Bool-cases, inl, inr, none, some, List, [], ◌∷◌, Text,
  text_eq, All, arith, ==_iff, ◌==◌, subst₂, ◌⊎◌, Option-cases, ◌&&◌, not, text_eq_iff, All-map,
  All-both, All-keep_if, All-keep_if_passes, subst, sym, text_eq_refl, lookup,
}
use duck_hunt.Parser.{Parser, answers_to}
use duck_hunt.Registry.{
  FormatMap, Registry, Entry, deref, register_parser, get_parser, has_format, is_built_in,
  drop_parser, unregister_parser, load_parser_config, unload_parser, remove_named,
}
use duck_hunt.Registry.Keys.{
  get_parser-register_parser, get_parser-drop_parser, unregister_parser-drop_parser,
}
use duck_hunt.Registry.Valid.{
  IsValid, Finds, drop_parser-IsValid, register_parser-IsValid, deref-register_parser,
}

lookup-All {κ} :
    (P : Text × ℕ → Type κ) (k : Text) (i : ℕ) (m : FormatMap)
    → All P m
    → lookup k m ≡ some i
    → P (k, i)
unfolding lookup
lookup-All P k i [] a e = cc
lookup-All P k i ((j, n) ∷ m) a e = elim (Bool-cases (text_eq j k)) [
  | inl t ↦
      let q : some n ≡ some i = (rw t at e) in
      subst₂ (λ x y. P (x, y)) ((text_eq_iff j k).0 t) (cc) a.0
  | inr t ↦ lookup-All P k i m a.1 (rw t at e)
]

-- In a valid registry, what a name finds is there, and goes by the name.
pub get_parser-Finds :
    (k : Text) (i : ℕ) (r : Registry) → IsValid r → get_parser k r ≡ some i → Finds r.parsers (k, i)
unfolding get_parser
get_parser-Finds k i r v g = lookup-All (Finds r.parsers) k i r.format_map v.names_find g

has_format-get_parser :
    (k : Text) (r : Registry)
    → ((get_parser k r ≡ none) × (has_format k r ≡ false))
      ⊎ ((i : ℕ) × (get_parser k r ≡ some i) × (has_format k r ≡ true))
unfolding get_parser has_format
has_format-get_parser k r = elim (Option-cases (lookup k r.format_map)) [
  | inl n ↦ inl (n, rw (n, has_format))
  | inr (i, e) ↦ inr (i, e, rw (e, has_format))
]

unregister_parser_unknown :
    (k : Text) (r : Registry) → get_parser k r ≡ none → unregister_parser k r ≡ some (false, r)
unfolding get_parser unregister_parser
unregister_parser_unknown k r g = rw (g, unregister_parser)

unregister_parser_built_in :
    (k : Text) (i : ℕ) (r : Registry)
    → get_parser k r ≡ some i
    → is_built_in k r ≡ true
    → unregister_parser k r ≡ some (false, r)
unfolding get_parser unregister_parser
unregister_parser_built_in k i r g b = ground arith

-- In a valid registry an unregistration never goes through a dangling pointer. It succeeds exactly
-- for a known name that is not built in, and leaves a valid registry.
pub unregister_parser-IsValid :
    (k : Text) (r : Registry)
    → IsValid r
    → (r' : Registry) × (unregister_parser k r ≡ some (has_format k r && not (is_built_in k r), r'))
      × IsValid r'
unregister_parser-IsValid k r v = elim (has_format-get_parser k r) [
  | inl (g, f) ↦ (r, rw f (unregister_parser_unknown k r g), v)
  | inr (i, g, f) ↦ elim (Bool-cases (is_built_in k r)) [
    | inl b ↦ (r, rw (f, b) (unregister_parser_built_in k i r g b), v)
    | inr b ↦
        let (p, d, a) = get_parser-Finds k i r v g in
        (
          drop_parser p r,
          rw (f, b) (unregister_parser-drop_parser k i p r g b d),
          drop_parser-IsValid i p r v d,
        )
  ]
]

-- Each parser's own name finds it: no later registration took the name over as an alias.
abbrev pub OwnNamesFind : Registry → Type 0
OwnNamesFind r = All (λ e. get_parser e.parser.format_name r ≡ some e.id) r.parsers

abbrev Unnamed : Text → List Entry → Type 0
Unnamed n es = All (λ e. text_eq e.parser.format_name n ≡ false) es

same_id :
    (n : Text) (r : Registry) (e : Entry)
    → get_parser e.parser.format_name r ≡ some e.id
    → text_eq e.parser.format_name n ≡ true
    → get_parser n r ≡ some e.id
same_id n r e g t = subst (λ (k : Text). get_parser k r ≡ some e.id) ((text_eq_iff _ n).0 t) g

Unnamed-unknown :
    (n : Text) (r : Registry) → OwnNamesFind r → get_parser n r ≡ none → Unnamed n r.parsers
Unnamed-unknown n r own g =
    All-map r.parsers
      (λ e h. elim (Bool-cases (text_eq e.parser.format_name n)) [
        | inr t ↦ t
        | inl t ↦ let q = same_id n r e h t in cc
      ])
      own

kept_other_name :
    (n : Text) (i : ℕ) (p : Parser) (r : Registry) (e : Entry)
    → get_parser n r ≡ some i
    → deref r.parsers i ≡ some p
    → get_parser e.parser.format_name r ≡ some e.id
    → deref r.parsers e.id ≡ some e.parser
    → not (text_eq e.parser.format_name p.format_name) ≡ true
    → text_eq e.parser.format_name n ≡ false
kept_other_name n i p r e g d h k u = elim (Bool-cases (text_eq e.parser.format_name n)) [
  | inr t ↦ t
  | inl t ↦
      let q = same_id n r e h t in
      let a : some e.id ≡ some i = sym q ∙ g in
      let b : e.id ≡ i = (cc) in
      let c : some e.parser ≡ some p = sym k ∙ (rw b d) in let f = text_eq_refl p.format_name in cc
]

Unnamed-dropped :
    (n : Text) (i : ℕ) (p : Parser) (r : Registry)
    → IsValid r
    → OwnNamesFind r
    → get_parser n r ≡ some i
    → deref r.parsers i ≡ some p
    → Unnamed n (drop_parser p r).parsers
unfolding drop_parser
Unnamed-dropped n i p r v own g d =
    let other = λ (e : Entry). not (text_eq e.parser.format_name p.format_name) in
    let kept = remove_named p.format_name r.parsers in
    All-map kept (λ e h. kept_other_name n i p r e g d h.0 h.1.0 h.1.1)
      (All-both _ _ kept (All-keep_if other _ r.parsers own) (
        All-both _ _ kept (All-keep_if other _ r.parsers v.own_ids)
          (All-keep_if_passes other r.parsers)))

load_parser_config_new :
    (p : Parser) (r : Registry)
    → has_format p.format_name r ≡ false
    → load_parser_config p r ≡ some (some (register_parser (some p) r))
unfolding load_parser_config
load_parser_config_new p r f = rw f

load_parser_config_replaces :
    (p : Parser) (r r' : Registry) (b : Bool)
    → has_format p.format_name r ≡ true
    → is_built_in p.format_name r ≡ false
    → unregister_parser p.format_name r ≡ some (b, r')
    → load_parser_config p r ≡ some (some (register_parser (some p) r'))
load_parser_config_replaces p r r' b f g u = unfold load_parser_config in rw (f, g, u)

-- Loading a configuration under a name that is not built in succeeds and keeps a valid registry
-- valid, where the own name of every parser still finds it. Afterwards any name that the
-- configuration answers to finds the new parser.
pub load_parser_config-IsValid :
    (p : Parser) (k : Text) (r : Registry)
    → IsValid r
    → OwnNamesFind r
    → is_built_in p.format_name r ≡ false
    → answers_to p k ≡ true
    → (r' : Registry) × (load_parser_config p r ≡ some (some r'))
      × IsValid r'
      × (get_parser k r' ≡ some r.next_id)
load_parser_config-IsValid p k r v own b a = elim (has_format-get_parser p.format_name r) [
  | inl (g, f) ↦ (
    register_parser (some p) r,
    load_parser_config_new p r f,
    register_parser-IsValid p r v (Unnamed-unknown p.format_name r own g),
    get_parser-register_parser k p r ∙ rw a,
  )
  | inr (i, g, f) ↦
      let (q, d, _) = get_parser-Finds p.format_name i r v g in
      (
        register_parser (some p) (drop_parser q r),
        load_parser_config_replaces p r (drop_parser q r) true f b
            (unregister_parser-drop_parser p.format_name i q r g b d),
        register_parser-IsValid p (drop_parser q r) (drop_parser-IsValid i q r v d)
            (Unnamed-dropped p.format_name i q r v own g d),
        get_parser-register_parser k p (drop_parser q r) ∙ (unfold drop_parser in rw a),
      )
]

is_built_in-register_parser :
    (p : Parser) (r : Registry)
    → r.initialization_complete ≡ true
    → (k : Text) → is_built_in k (register_parser (some p) r) ≡ is_built_in k r
unfolding is_built_in register_parser
is_built_in-register_parser p r done k = rw done

unload_parser_removes :
    (n : Text) (r r' : Registry)
    → is_built_in n r ≡ false
    → unregister_parser n r ≡ some (true, r')
    → unload_parser n r ≡ some (some (true, r'))
unload_parser_removes n r r' b u = unfold unload_parser in rw (b, u)

-- The unloading of a custom parser takes a built-in name along that the parser has as an alias:
-- the name is still listed as built in, and finds nothing.
pub unload_parser_hides_built_in :
    (p : Parser) (k : Text) (r : Registry)
    → IsValid r
    → r.initialization_complete ≡ true
    → has_format p.format_name r ≡ false
    → is_built_in p.format_name r ≡ false
    → answers_to p k ≡ true
    → is_built_in k r ≡ true
    → (r₁ : Registry) × (r₂ : Registry) × (load_parser_config p r ≡ some (some r₁))
      × (unload_parser p.format_name r₁ ≡ some (some (true, r₂)))
      × (is_built_in k r₂ ≡ true)
      × (get_parser k r₂ ≡ none)
unload_parser_hides_built_in p k r v done f b a bk =
    let r₁ = register_parser (some p) r in
    let own = text_eq_refl p.format_name in
    let still = is_built_in-register_parser p r done in
    (
      r₁,
      drop_parser p r₁,
      load_parser_config_new p r f,
      unload_parser_removes p.format_name r₁ (drop_parser p r₁) (still p.format_name ∙ b) (
          unregister_parser-drop_parser p.format_name r.next_id p r₁
            (get_parser-register_parser p.format_name p r ∙ rw own) (still p.format_name ∙ b)
            (deref-register_parser p r v.old_ids)),
      unfold drop_parser is_built_in in (still k ∙ bk),
      get_parser-drop_parser k p r₁ ∙ rw a,
    )

deref-remove_named-none :
    (n : Text) (es : List Entry) (i : ℕ)
    → All (λ x. x.id ≡ i → text_eq x.parser.format_name n ≡ true) es
    → deref (remove_named n es) i ≡ none
unfolding deref remove_named
deref-remove_named-none n [] i h = refl
deref-remove_named-none n (x ∷ es) i h = elim (Bool-cases (x.id == i)) [
  | inl t ↦ let m = h.0 ((==_iff x.id i).0 t) in rw m (deref-remove_named-none n es i h.1)
  | inr t ↦ elim (Bool-cases (text_eq x.parser.format_name n)) [
    | inl m ↦ rw m (deref-remove_named-none n es i h.1)
    | inr m ↦ rw m (rw t (deref-remove_named-none n es i h.1))
  ]
]

shares_name :
    (r : Registry) (p : Parser) (e x : Entry)
    → deref r.parsers e.id ≡ some e.parser
    → e.parser.format_name ≡ p.format_name
    → deref r.parsers x.id ≡ some x.parser
    → x.id ≡ e.id
    → text_eq x.parser.format_name p.format_name ≡ true
shares_name r p e x de same h m =
    let q : some x.parser ≡ some e.parser = sym h ∙ (rw m de) in
    (text_eq_iff x.parser.format_name p.format_name).1 (cc)

-- A parser that is dropped because it shares its name with the unloaded one leaves its other
-- aliases behind as dangling pointers.
pub unregister_parser_dangles :
    (n c : Text) (i : ℕ) (p : Parser) (e : Entry) (r : Registry)
    → get_parser n r ≡ some i
    → is_built_in n r ≡ false
    → deref r.parsers i ≡ some p
    → All (λ x. deref r.parsers x.id ≡ some x.parser) r.parsers
    → deref r.parsers e.id ≡ some e.parser
    → e.parser.format_name ≡ p.format_name
    → get_parser c r ≡ some e.id
    → answers_to p c ≡ false
    → (r' : Registry) × (unregister_parser n r ≡ some (true, r'))
      × (get_parser c r' ≡ some e.id)
      × (deref r'.parsers e.id ≡ none)
unregister_parser_dangles n c i p e r g b d ids de same gc a = (
  drop_parser p r,
  unregister_parser-drop_parser n i p r g b d,
  get_parser-drop_parser c p r ∙ rw a gc,
  unfold drop_parser in
      deref-remove_named-none p.format_name r.parsers e.id
        (All-map r.parsers (λ x h m. shares_name r p e x de same h m) ids),
)
