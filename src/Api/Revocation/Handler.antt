-- ===== src/Api/Revocation/Handler.antt =====
-- One handler on its own.
use mnemoca.Prelude.{[], ◌∷◌, List}
use mnemoca.Api.Revocation.{Keys, Fault, Phase, step, Caller}

-- The handler makes its calls one after the other; each takes one of the given outcomes.
unfoldable pub run : Caller → List Fault → Phase → Keys → Phase × Keys
run c [] p s = (p, s)
run c (f ∷ fs) p s = let (p', s') = step c f p s in run c fs p' s'
