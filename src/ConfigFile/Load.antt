-- ===== src/ConfigFile/Load.antt =====
-- load_config_from_string of src/config_file.cc. `size` is the size of `config` with the newline that
-- is appended to it, so that `curr_pos()` is what the buffer has lost of it.
use simlib.Common.{
  ℕ, zero, suc, ◌-◌, Bool, true, false, not, ◌&&◌, ◌||◌, List, [], ◌∷◌, ◌++◌, none, some, Bytes,
  ◌==◌, if◌then◌else◌, length,
}
use simlib.Ctype.{is_space, is_alnum}
use simlib.StringView.Text.{remove_leading, leading}
use simlib.ConfigFile.Value.{
  Reason, invalid_name, incomplete_directive, invalid_assignment_operator, missing_bracket,
  unknown_sequence, Parsed, ok, err, fault, extract_value,
}
use simlib.ConfigFile.{Variable, null_var, unset, Vars, find_var, put_var}

-- A white-space but not a newline.
unfoldable pub is_ws : ℕ → Bool
unfolding is_space
is_ws c = not (c == b'\n') && is_space c

unfoldable pub is_name : ℕ → Bool
unfolding is_alnum
is_name c = is_alnum c || (c == b'-' || (c == b'_' || c == b'.'))

abbrev pub not_newline : ℕ → Bool
not_newline c = not (c == b'\n')

abbrev pub skip_comment : Bytes → Bytes
skip_comment buff = remove_leading not_newline buff

-- One turn of the loop over an array: the elements so far, and the buffer for the next turn or the
-- end of the array, which may be a throw.
pub data ArrayTurn : Type 0 where
  again : List Bytes → Bytes → ArrayTurn
  ended : List Bytes → Parsed (Unit {0}) → ArrayTurn

-- What follows a value in an array.
unfoldable pub array_next : List Bytes → Bytes → ArrayTurn
array_next arr [] = ended arr fault
array_next arr (c ∷ s) =
    if c == b',' || c == b'\n'
    then again arr s
    else if c == b'#'
    then again arr (skip_comment (c ∷ s))
    else if c == b']'
    then ended arr (ok tt s)
    else ended arr (err unknown_sequence (c ∷ s))

abbrev pub array_value : List Bytes → Parsed Bytes → ArrayTurn
array_value arr (ok v rest) = array_next (arr ++ v ∷ []) (remove_leading is_ws rest)
array_value arr (err why rest) = ended arr (err why rest)
array_value arr fault = ended arr fault

-- Behind the white-space, newlines included.
unfoldable pub array_turn : List Bytes → Bytes → ArrayTurn
unfolding array_next
array_turn arr [] = ended arr (err missing_bracket [])
array_turn arr (c ∷ s) =
    if c == b']'
    then ended arr (ok tt s)
    else if c == b'#'
    then again arr (skip_comment (c ∷ s))
    else if c == b','
    then again arr s
    else array_value arr (extract_value true (c ∷ s))

-- `for (;;)` behind the opening bracket. The elements are returned also where it throws.
unfoldable pub array_loop : ℕ → List Bytes → Bytes → List Bytes × Parsed (Unit {0})
unfolding array_turn
array_loop zero arr buff = (arr, fault)
array_loop (suc f) arr buff = elim (array_turn arr (remove_leading is_space buff)) [
  | again arr' rest ↦ array_loop f arr' rest
  | ended arr' r ↦ (arr', r)
]

-- The variable after its value was read, or in part where the reading throws.
abbrev pub ValueResult : Type 0
ValueResult = Variable × Parsed (Unit {0})

abbrev pub finish : ℕ → Variable → Parsed (Unit {0}) → ValueResult
finish size v (ok u rest) = (record v { end = size - length rest }, ok u rest)
finish size v (err why rest) = (v, err why rest)
finish size v fault = (v, fault)

abbrev pub string_value : ℕ → Variable → Parsed Bytes → ValueResult
string_value size v (ok s rest) = (record v { str = s; end = size - length rest }, ok tt rest)
string_value size v (err why rest) = (v, err why rest)
string_value size v fault = (v, fault)

-- From `if (var.is_set()) var.unset();` to the end of the value. `var_old` is the variable before.
unfoldable pub load_value : ℕ → Variable → Bytes → ValueResult
unfolding unset array_loop
load_value size var_old [] = (var_old, fault)
load_value size var_old (c ∷ s) =
    let v = record (if var_old.set then unset var_old else var_old) {
      set = true;
      array = false;
      beg = size - length (c ∷ s);
    } in
    if not (c == b'[')
    then (if c == b'\n' || c == b'#'
        then finish size (record v { str = [] }) (ok tt (c ∷ s))
        else string_value size v (extract_value false (c ∷ s)))
    else let (arr, r) = array_loop (suc (length s)) v.arr s in
      finish size (record v { array = true; arr = arr }) r

-- One turn of the main loop: the variables and the buffer for the next one, or the throw, with the
-- variables as they are then.
pub data Line : Type 0 where
  next : Vars → Bytes → Line
  thrown : Reason → Bytes → Vars → Line
  stuck : Line

-- Behind the value.
unfoldable pub end_of_line : Vars → Bytes → Line
end_of_line vars buff = elim (remove_leading is_ws buff) [
  | [] ↦ stuck
  | c ∷ s ↦
      if c == b'#'
      then next vars (skip_comment (c ∷ s))
      else if not (c == b'\n')
      then thrown unknown_sequence (c ∷ s) vars
      else next vars s
]

-- `load_all`, or the name is in the variable set: otherwise the value goes to `tmp`.
abbrev pub stored : Bool → Vars → Bytes → Bool
stored load_all vars name = load_all || elim (find_var vars name) [ some v ↦ true | none ↦ false ]

abbrev pub old_var : Vars → Bytes → Variable
old_var vars name = elim (find_var vars name) [ some v ↦ v | none ↦ null_var ]

abbrev pub put_if : Bool → Vars → Bytes → Variable → Vars
put_if keep vars name v = if keep then put_var vars name v else vars

unfoldable pub after_value : Vars → Parsed (Unit {0}) → Line
unfolding end_of_line
after_value vars (ok u rest) = end_of_line vars rest
after_value vars (err why rest) = thrown why rest vars
after_value vars fault = stuck

-- From the value on.
unfoldable pub assign : ℕ → Bool → Vars → Bytes → Bytes → Line
unfolding load_value after_value
assign size load_all vars name buff =
    let (v, r) = load_value size (old_var vars name) buff in
    after_value (put_if (stored load_all vars name) vars name v) r

-- From the assignment operator on.
unfoldable pub operator_and_value : ℕ → Bool → Vars → Bytes → Bytes → Line
unfolding assign
operator_and_value size load_all vars name [] = stuck
operator_and_value size load_all vars name (c ∷ s) =
    if c == b'\n' || c == b'#'
    then thrown (incomplete_directive name) (c ∷ s) vars
    else if not (c == b'=') && not (c == b':')
    then thrown invalid_assignment_operator (c ∷ s) vars
    else assign size load_all vars name (remove_leading is_ws s)

unfoldable pub directive : ℕ → Bool → Vars → Bytes → Line
unfolding operator_and_value is_name
directive size load_all vars buff = elim (leading is_name buff) [
  | [] ↦ thrown invalid_name buff vars
  | n ∷ name ↦
      operator_and_value size load_all vars (n ∷ name)
        (remove_leading is_ws (remove_leading is_name buff))
]

abbrev pub tail : Bytes → Bytes
tail [] = []
tail (c ∷ s) = s

unfoldable pub load_line : ℕ → Bool → Vars → Bytes → Line
unfolding directive
load_line size load_all vars buff = elim (remove_leading is_ws buff) [
  | [] ↦ stuck
  | c ∷ s ↦
      if c == b'\n'
      then next vars s
      else if c == b'#'
      then next vars (tail (skip_comment (c ∷ s)))
      else directive size load_all vars (c ∷ s)
]

pub data Loaded : Type 0 where
  loaded : Vars → Loaded
  failed : Reason → Bytes → Vars → Loaded
  faulted : Loaded

-- `while (!buff.empty())`
unfoldable pub load_loop : ℕ → ℕ → Bool → Vars → Bytes → Loaded
unfolding load_line
load_loop f size load_all vars [] = loaded vars
load_loop zero size load_all vars (c ∷ s) = faulted
load_loop (suc f) size load_all vars (c ∷ s) = elim (load_line size load_all vars (c ∷ s)) [
  | stuck ↦ faulted
  | thrown why rest vars' ↦ failed why rest vars'
  | next vars' rest ↦ load_loop f size load_all vars' rest
]

-- `for (auto it : vars) it.second.unset();`: the loop's variable is a copy of each entry, so what it
-- clears is dropped, and the set stays as it is.
unfoldable pub unset_copies : Vars → Vars
unset_copies [] = []
unset_copies ((k, v) ∷ vars) = let it : Variable = unset v in (k, v) ∷ unset_copies vars

unfoldable pub load_config_from_string : Vars → Bytes → Bool → Loaded
unfolding load_loop unset_copies
load_config_from_string vars config load_all =
    let buff = config ++ b'\n' ∷ [] in
    load_loop (length buff) (length buff) load_all (unset_copies vars) buff
