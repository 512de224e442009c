-- ===== src/ConfigFile/Reload.antt =====
-- load_config_from_string of src/config_file.cc on whole texts of written values.
use simlib.Common.{
  ℕ, zero, suc, ◌<◌, ◌≤◌, ◌≡◌, ◌≢◌, refl, ap, ◌∙◌, true, false, List, [], ◌∷◌, ◌++◌, Bytes, arith,
  All, length, Bool-cases, inl, inr, if◌then◌else◌, Option, some, none, append_assoc, length-append,
}
use simlib.StringView.Text.{remove_leading, str_eq}
use simlib.StringView.Order.{str_eq_iff}
use simlib.ConfigFile.Escape.{escape_string}
use simlib.ConfigFile.Load.{
  is_ws, next, old_var, load_line, loaded, load_loop, unset_copies, load_config_from_string,
}
use simlib.ConfigFile.{Variable, Vars, put_var, get_var}
use simlib.ConfigFile.Written.{Entry, IsEntry, line_of, config_of, written, load_line-written}

-- The map: an entry replaces the variable of its name and leaves the others.
get_var-put_var :
    (vars : Vars) (k j : Bytes) (v : Variable)
    → get_var (put_var vars k v) j ≡ (if str_eq k j then v else get_var vars j)
unfolding get_var put_var
get_var-put_var [] k j v = ground arith
get_var-put_var ((i, w) ∷ vars) k j v =
    ground (arith, get_var-put_var vars k j v, str_eq_iff i k, str_eq_iff i j, str_eq_iff k j)

unset_copies-id : (vars : Vars) → unset_copies vars ≡ vars
unfolding unset_copies
unset_copies-id [] = refl
unset_copies-id ((k, v) ∷ vars) = ap (◌∷◌ (k, v)) (unset_copies-id vars)

-- The last value that is written for a name.
abbrev pub last_value : List Entry → Bytes → Option Bytes → Option Bytes
last_value [] name before = before
last_value (e ∷ entries) name before =
    last_value entries name (if str_eq e.0 name then some e.1 else before)

-- What becomes of the variable of a name.
abbrev pub Becomes : Option Bytes → Variable → Variable → Type 0
Becomes none old v = v ≡ old
Becomes (some s) old v = (v.set ≡ true) × (v.array ≡ false) × (v.str ≡ s)

load_loop-next :
    (f size : ℕ) (vars vars' : Vars) (s rest : Bytes)
    → s ≢ []
    → load_line size true vars s ≡ next vars' rest
    → load_loop (suc f) size true vars s ≡ load_loop f size true vars' rest
unfolding load_loop
load_loop-next f size vars vars' [] rest ne h = absurd (ne refl)
load_loop-next f size vars vars' (c ∷ s) rest ne h = rw (h, load_loop)

line_of-ne-nil : (e : Entry) (rest : Bytes) → IsEntry e → line_of e rest ≢ []
line_of-ne-nil ([], v) rest h = absurd (h.name_nonempty refl)
line_of-ne-nil (n ∷ ns, v) rest h = λ e. cc

Becomes-put :
    (vars : Vars) (e : Entry) (w : Variable)
    → w.set ≡ true
    → w.array ≡ false
    → w.str ≡ e.1
    → (name : Bytes) (before : Option Bytes) (old : Variable)
    → Becomes before old (get_var vars name)
    → Becomes (if str_eq e.0 name then some e.1 else before) old (get_var (put_var vars e.0 w) name)
Becomes-put vars e w set array str name before old b =
    rw (get_var-put_var vars e.0 name w) (elim (Bool-cases (str_eq e.0 name)) [
      | inl same ↦ rw (same, Becomes) (set, array, str)
      | inr other ↦ rw (other, Becomes) b
    ])

load_loop-written :
    (entries : List Entry) (f size : ℕ) (vars : Vars)
    → All IsEntry entries
    → length entries < f
    → (vars' : Vars) × (load_loop f size true vars (config_of entries (b'\n' ∷ [])) ≡ loaded vars')
      × ((name : Bytes) (before : Option Bytes) (old : Variable)
          → Becomes before old (get_var vars name)
          → Becomes (last_value entries name before) old (get_var vars' name))
load_loop-written [] zero size vars h lt = absurd (omega arith)
load_loop-written [] (suc f) size vars h lt =
    (vars, unfold load_loop load_line remove_leading is_ws in refl, λ name before old b. b)
load_loop-written (e ∷ entries) zero size vars h lt = absurd (omega arith)
load_loop-written (e ∷ entries) (suc f) size vars h lt =
    let rest = config_of entries (b'\n' ∷ []) in
    let w = written size (old_var vars e.0) e.1 rest in
    let vars₁ = put_var vars e.0 w in
    let (vars', run, became) = load_loop-written entries f size vars₁ h.1 (omega arith) in
    (
      vars',
      load_loop-next f size vars vars₁ (line_of e rest) rest (line_of-ne-nil e rest h.0)
            (load_line-written size vars e rest h.0)
          ∙ run,
      λ name before old b.
          became name _ old (Becomes-put vars e w refl refl refl name before old b),
    )

config_of-append :
    (entries : List Entry) (rest : Bytes) → config_of entries [] ++ rest ≡ config_of entries rest
config_of-append [] rest = refl
config_of-append ((name, v) ∷ entries) rest =
    append_assoc name _ rest
    ∙ ap (λ t. name ++ b':' ∷ b' ' ∷ t)
        (append_assoc (escape_string v) _ rest
          ∙ ap (λ t. escape_string v ++ b'\n' ∷ t) (config_of-append entries rest))

config_of-long :
    (entries : List Entry) (rest : Bytes) → length entries ≤ length (config_of entries rest)
config_of-long [] rest = omega arith
config_of-long ((name, v) ∷ entries) rest =
    let ih = config_of-long entries rest in
    rw
      (
        length-append name (b':' ∷ b' ' ∷ (escape_string v ++ b'\n' ∷ config_of entries rest)),
        length-append (escape_string v) (b'\n' ∷ config_of entries rest),
        length,
      )
      omega arith

config_of-fuel :
    (entries : List Entry) → length entries < length (config_of entries [] ++ b'\n' ∷ [])
config_of-fuel entries =
    let long = config_of-long entries [] in
    rw (length-append (config_of entries []) (b'\n' ∷ []), length) omega arith

-- Loading the text of a list of named values (each name a nonempty name, each value a string without
-- NUL, written by `escape_string` after `name: `) with `load_all` succeeds. A name the text mentions
-- becomes a set variable with the last value written for it, and one it does not mention keeps the
-- variable it had before the load, its `set` flag included.
pub load_config_from_string-config_of :
    (vars : Vars) (entries : List Entry)
    → All IsEntry entries
    → (vars' : Vars) × (load_config_from_string vars (config_of entries []) true ≡ loaded vars')
      × ((name : Bytes)
          → Becomes (last_value entries name none) (get_var vars name) (get_var vars' name))
unfolding load_config_from_string
load_config_from_string-config_of vars entries h =
    let buff = config_of entries [] ++ b'\n' ∷ [] in
    let (vars', run, became) =
      load_loop-written entries (length buff) (length buff) vars h (config_of-fuel entries) in
    (
      vars',
      rw (unset_copies-id vars) (
          ap (load_loop (length buff) (length buff) true vars)
            (config_of-append entries (b'\n' ∷ []))
          ∙ run),
      λ name. became name none (get_var vars name) refl,
    )
