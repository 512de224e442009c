-- ===== src/Tests.antt =====
-- Runs of the modelled code at concrete inputs, and each theorem applied where its conditions hold.
use simlib.Common.{
  ◌≡◌, true, not, ◌&&◌, [], ◌∷◌, Bytes, All, IsByte, all_of, ltb, ltb→lt, &&-true, ◌≢◌, ◌==◌, arith,
}
mod Config
mod Strings
mod Texts
mod Threads
mod Paths
mod Packages
mod Archives
mod Events
mod Conversion
mod Times
mod Judging
mod Rounds

-- The conditions on a text, tested.
pub bytes_of : (s : Bytes) → all_of (λ c. ltb c 256) s ≡ true → All IsByte s
bytes_of [] h = tt
bytes_of (c ∷ s) h =
    let both = &&-true (ltb c 256) (all_of (λ c. ltb c 256) s) h in
    (ltb→lt c 256 both.0, bytes_of s both.1)

pub text_of :
    (s : Bytes) → all_of (λ c. ltb c 256 && not (c == 0)) s ≡ true → All (λ c. IsByte c × (c ≢ 0)) s
text_of [] h = tt
text_of (c ∷ s) h =
    let both = &&-true (ltb c 256 && not (c == 0)) (all_of (λ c. ltb c 256 && not (c == 0)) s) h in
    let this = &&-true (ltb c 256) (not (c == 0)) both.0 in
    ((ltb→lt c 256 this.0, λ e. ground (arith, this.1, e)), text_of s both.1)
