-- ===== src/Examples/Sizes.antt =====
-- Size classes at concrete sizes.
use rmm.Base.{arith}
use rmm.SizeClass.{size2cls}
use rmm.SizeClass.BestFit.{IsBest, size2cls-IsBest}
use rmm.SizeClass.Generate.{generate, Agrees, generate-Agrees}

size2cls-IsBest_example : IsBest 1000 (size2cls 1000)
size2cls-IsBest_example = size2cls-IsBest 1000 (omega arith) (omega arith)

generate-Agrees_example : Agrees generate 40
generate-Agrees_example = generate-Agrees 40 (omega arith)
