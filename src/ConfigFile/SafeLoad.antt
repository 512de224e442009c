-- ===== src/ConfigFile/SafeLoad.antt =====
-- load_config_from_string of src/config_file.cc: its fuel and the place of its errors.
use simlib.Common.{
  ℕ, zero, suc, ◌+◌, ◌≤◌, ◌≡◌, Bool, [], ◌∷◌, ◌++◌, Bytes, arith, length, length-append, subst,
}
use simlib.ConfigFile.Lines.{Ended, Lines-Ended, append-Lines}
use simlib.ConfigFile.Load.{
  Line, next, thrown, stuck, load_line, Loaded, loaded, failed, faulted, load_loop, unset_copies,
  load_config_from_string,
}
use simlib.ConfigFile.{Vars}
use simlib.ConfigFile.SafeLine.{LineSafe, load_line-LineSafe}

-- The variables are loaded, or there is an error, in a buffer no longer than the text.
abbrev pub Outcome : ℕ → Loaded → Type 0
Outcome n (loaded vars) = Unit
Outcome n (failed why rest vars) = Ended rest × (length rest ≤ n)
Outcome n faulted = ⊥

load_rest-Outcome :
    (f size n : ℕ) (load_all : Bool) (l : Line)
    → ((vars : Vars) (s : Bytes)
        → length s ≤ f
        → Ended s
        → length s ≤ size
        → Outcome size (load_loop f size load_all vars s))
    → n ≤ suc f
    → n ≤ size
    → LineSafe n l
    → Outcome size (elim l as (λ _. Loaded) [
      | stuck ↦ faulted
      | thrown why rest vars ↦ failed why rest vars
      | next vars rest ↦ load_loop f size load_all vars rest
    ])
load_rest-Outcome f size n load_all (next vars rest) later le le' h =
    later vars rest (omega arith) h.0 (omega arith)
load_rest-Outcome f size n load_all (thrown why rest vars) later le le' h = (h.0, omega arith)
load_rest-Outcome f size n load_all stuck later le le' h = absurd h

load_loop-Outcome :
    (f size : ℕ) (load_all : Bool) (vars : Vars) (s : Bytes)
    → length s ≤ f
    → Ended s
    → length s ≤ size
    → Outcome size (load_loop f size load_all vars s)
unfolding load_loop
load_loop-Outcome f size load_all vars [] le h le' = tt
load_loop-Outcome zero size load_all vars (c ∷ s) le h le' = absurd (omega arith)
load_loop-Outcome (suc f) size load_all vars (c ∷ s) le h le' =
    load_rest-Outcome f size (suc (length s)) load_all (load_line size load_all vars (c ∷ s))
      (load_loop-Outcome f size load_all) le le' (load_line-LineSafe size load_all vars (c ∷ s) h)

-- For any variables and any text load_config_from_string ends, with the variables loaded or at a
-- ParseError whose place lies in the text: none of its loops runs out of fuel, reads past the end of
-- the buffer or moves an index below 0.
pub load_config_from_string-Outcome :
    (vars : Vars) (config : Bytes) (load_all : Bool)
    → Outcome (length config + 1) (load_config_from_string vars config load_all)
unfolding load_config_from_string
load_config_from_string-Outcome vars config load_all =
    let buff = config ++ b'\n' ∷ [] in
    let e : length buff ≡ length config + 1 = length-append config (b'\n' ∷ []) in
    subst (λ n. Outcome n (load_loop (length buff) (length buff) load_all (unset_copies vars) buff))
      e
      (load_loop-Outcome (length buff) (length buff) load_all (unset_copies vars) buff (omega arith)
        (Lines-Ended buff (append-Lines config)) (omega arith))
