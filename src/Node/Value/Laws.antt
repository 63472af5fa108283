-- ===== src/Node/Value/Laws.antt =====
-- What a write to a map leaves at its key and at the others.
use proxy_proxy.Prelude.{◌≡◌, refl, arith}
use proxy_proxy.Prelude.Tests.{◌==◌, if◌then◌else◌}
use proxy_proxy.Prelude.Text.{Str, str_eq, str_beq_iff}
use proxy_proxy.Node.Value.{Value, Object, empty, field, get, set}

pub get-set :
    (key other : Str) (v : Value) (m : Object)
    → get other (set key v m) ≡ (if key == other then v else get other m)
unfolding get set
get-set key other v empty = refl
get-set key other v (field k w m) =
    ground
      (arith, get-set key other v m, str_beq_iff k key, str_beq_iff k other, str_beq_iff key other)
