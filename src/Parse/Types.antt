-- ===== src/Parse/Types.antt =====
-- compiler/parse.cpp: parseType, parseTypeArguments, parseTypeSignature, parseTypeAscription and
-- parseFnSignature. A list that is read up to a closing token takes a function for its items.
use aike.Base.{ℕ, zero, suc, Bool, true, false, List, [], ◌∷◌, none, Bytes, if◌then◌else◌}
use aike.Types.Syntax.{
  Ty, Tys, unknown, void, bool, integer, float, string, tuple, array, pointer, function, inst,
  generic, nil, cons,
}
use aike.Mangle.Text.{codes}
use aike.Tokenize.Defs.{TokenType, atom, bracket, ident}
use aike.Resolve.Members.{Variable, argument}
use aike.Parse.Stream.{
  Parser, ok, out_of_fuel, ◌>>=◌, ◌>>◌, pure, fail, fresh, is, is_text, move, eat, eat_text,
  expected_type, rounds,
}

abbrev pub to_tys : List Ty → Tys
to_tys [] = nil
to_tys (t ∷ ts) = cons t (to_tys ts)

-- `if (!ts.is(kind, close)) ts.eat(Token::TypeAtom, ",");`
unfoldable pub separator : TokenType → Bytes → Parser (Unit {0})
unfolding is_text eat_text
separator kind close s = if is_text kind close s then ok (tt, s) else eat_text atom (codes ",") s

-- `while (!ts.is(kind, close)) { item; separator }`
unfoldable pub comma_loop {ℓ} : {A : Type ℓ} → ℕ → TokenType → Bytes → Parser A → Parser (List A)
unfolding separator
comma_loop zero kind close item s = out_of_fuel
comma_loop (suc fuel) kind close item s = elim (is_text kind close s) [
  | true ↦ ok ([], s)
  | false ↦
      (do x ← item; separator kind close; xs ← comma_loop fuel kind close item; pure (x ∷ xs)) s
]

unfoldable pub comma_list {ℓ} : {A : Type ℓ} → TokenType → Bytes → Parser A → Parser (List A)
unfolding comma_loop
comma_list kind close item s = comma_loop (rounds s) kind close item s

abbrev pub add_item {ℓ} : {A : Type ℓ} → A → List A × Bool → List A × Bool
add_item x (xs, varargs) = (x ∷ xs, varargs)

-- The loop over arguments, which `...` ends.
unfoldable pub argument_loop {ℓ} : {A : Type ℓ} → ℕ → Parser A → Parser (List A × Bool)
unfolding separator
argument_loop zero item s = out_of_fuel
argument_loop (suc fuel) item s = elim (is_text bracket (codes ")") s) [
  | true ↦ ok (([], false), s)
  | false ↦ elim (is_text atom (codes "...") s) [
    | true ↦ (do move; pure ([], true)) s
    | false ↦
        (do
          x ← item
          separator bracket (codes ")")
          rest ← argument_loop fuel item
          pure (add_item x rest))
          s
  ]
]

unfoldable pub argument_list {ℓ} : {A : Type ℓ} → Parser A → Parser (List A × Bool)
unfolding argument_loop
argument_list item s = argument_loop (rounds s) item s

unfoldable pub parse_unknown : Parser Ty
parse_unknown = do a ← fresh; pure (unknown a)

abbrev pub tuple_of : List Ty → Ty
tuple_of [] = void
tuple_of (t ∷ []) = t
tuple_of (t ∷ u ∷ ts) = tuple (to_tys (t ∷ u ∷ ts))

unfoldable pub parse_tuple_type : Parser Ty → Parser Ty
unfolding comma_list eat_text
parse_tuple_type rec = do
  eat_text bracket (codes "(")
  fields ← comma_list bracket (codes ")") rec
  eat_text bracket (codes ")")
  pure (tuple_of fields)

unfoldable pub parse_array_type : Parser Ty → Parser Ty
unfolding eat_text
parse_array_type rec = do
  eat_text bracket (codes "[")
  element ← rec
  eat_text bracket (codes "]")
  pure (array element)

unfoldable pub parse_function_type : Parser Ty → Parser Ty
unfolding argument_list eat_text
parse_function_type rec = do
  move
  eat_text bracket (codes "(")
  args ← argument_list rec
  eat_text bracket (codes ")")
  eat_text atom (codes ":")
  ret ← rec
  pure (function (to_tys args.0) ret args.1)

unfoldable pub parse_type_arguments_with : Parser Ty → Parser (List Ty)
unfolding comma_list eat_text
parse_type_arguments_with rec s =
    if is_text atom (codes ".<") s
    then (do
      eat_text atom (codes ".<")
      args ← comma_list atom (codes ">") rec
      eat_text atom (codes ">")
      pure args)
        s
    else ok ([], s)

unfoldable pub parse_instance_type : Parser Ty → Parser Ty
unfolding parse_type_arguments_with eat
parse_instance_type rec = do
  name ← eat ident
  tysig ← parse_type_arguments_with rec
  pure (inst name.data_of.bytes name.location (to_tys tysig) none none)

abbrev pub word {ℓ} : {A : Type ℓ} → A → Parser A
word a = do move; pure a

-- parseType, with the recursive call as `rec`.
unfoldable pub type_step : Parser Ty → Parser Ty
unfolding parse_tuple_type parse_array_type parse_function_type parse_instance_type parse_unknown
type_step rec s =
    if is_text ident (codes "_") s
    then (do move; parse_unknown) s
    else if is_text ident (codes "void") s
    then word void s
    else if is_text ident (codes "bool") s
    then word bool s
    else if is_text ident (codes "int") s
    then word integer s
    else if is_text ident (codes "float") s
    then word float s
    else if is_text ident (codes "string") s
    then word string s
    else if is_text bracket (codes "(") s
    then parse_tuple_type rec s
    else if is_text bracket (codes "[") s
    then parse_array_type rec s
    else if is_text atom (codes "*") s
    then (do move; element ← rec; pure (pointer element)) s
    else if is_text ident (codes "fn") s
    then parse_function_type rec s
    else if is ident s
    then parse_instance_type rec s
    else fail expected_type s

unfoldable pub type_on : ℕ → Parser Ty
unfolding type_step
type_on zero s = out_of_fuel
type_on (suc fuel) s = type_step (type_on fuel) s

unfoldable pub parse_type : Parser Ty
unfolding type_on
parse_type s = type_on (rounds s) s

unfoldable pub parse_type_arguments : Parser (List Ty)
unfolding parse_type_arguments_with
parse_type_arguments = parse_type_arguments_with parse_type

unfoldable pub parse_generic : Parser Ty
unfolding eat
parse_generic = do name ← eat ident; a ← fresh; pure (generic a name.data_of.bytes name.location)

unfoldable pub parse_type_signature : Parser (List Ty)
unfolding comma_list eat_text parse_generic
parse_type_signature s =
    if is_text atom (codes "<") s
    then (do
      eat_text atom (codes "<")
      args ← comma_list atom (codes ">") parse_generic
      eat_text atom (codes ">")
      pure args)
        s
    else ok ([], s)

unfoldable pub parse_type_ascription : Parser Ty
unfolding parse_type parse_unknown
parse_type_ascription s =
    if is_text atom (codes ":") s then (do move; parse_type) s else parse_unknown s

unfoldable pub parse_argument : Parser Variable
unfolding eat parse_type_ascription
parse_argument = do
  name ← eat ident
  type ← parse_type_ascription
  pure (record {
    kind = argument;
    name = name.data_of.bytes;
    type = type;
    location = name.location;
    fn = none;
  })

abbrev types_of_arguments : List Variable → Tys
types_of_arguments [] = nil
types_of_arguments (v ∷ vs) = cons v.type (types_of_arguments vs)

-- The type of the function, and its arguments.
unfoldable pub parse_fn_signature : Parser (Ty × List Variable)
unfolding argument_list eat_text parse_argument parse_type_ascription
parse_fn_signature = do
  eat_text bracket (codes "(")
  args ← argument_list parse_argument
  eat_text bracket (codes ")")
  ret ← parse_type_ascription
  pure (function (types_of_arguments args.0) ret args.1, args.0)
