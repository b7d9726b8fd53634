-- ===== src/Setup/Tests.antt =====
-- The set-up of a concrete device.
use zns_tools.Base.{ℕ, ◌≡◌, refl, List, [], ◌∷◌, arith}
use zns_tools.Fixtures.{kernel, control, zone_3}
use zns_tools.Setup.{decimal, base_of}
use zns_tools.Setup.Ready.{Ready, init_znsdev-Ready}

-- "259", and the base name of "../nvme"
decimal_259 : decimal 259 ≡ 50 ∷ 53 ∷ 57 ∷ []
decimal_259 = refl

abbrev link : List ℕ
link = 46 ∷ 46 ∷ 47 ∷ 110 ∷ 118 ∷ 109 ∷ 101 ∷ []

base_of-link : base_of link link ≡ 110 ∷ 118 ∷ 109 ∷ 101 ∷ []
base_of-link = refl

init_znsdev-Ready_example : Ready kernel control 512
init_znsdev-Ready_example =
    init_znsdev-Ready kernel control 512 (λ n. zone_3 ∷ []) refl refl (omega arith) (λ n. refl)
