-- ===== src/Types/Order.antt =====
-- The order of statuses (kirin/core/types.py): `get_higher_status` is a least upper bound.
use kirin.Prelude.{◌≤◌, ◌≡◌, arith}
use kirin.Types.{ModificationType, get_modification_type_order, get_higher_status}

-- Both arguments are at most the result.
pub le-get_higher_status :
    (a b : ModificationType)
    → (get_modification_type_order a ≤ get_modification_type_order (get_higher_status a b))
      × (get_modification_type_order b ≤ get_modification_type_order (get_higher_status a b))
unfolding get_higher_status
le-get_higher_status a b = ground arith

pub get_modification_type_order-injective :
    (a b : ModificationType) → get_modification_type_order a ≡ get_modification_type_order b → a ≡ b
unfolding get_modification_type_order
get_modification_type_order-injective a b h = ground arith

-- And the result is at most what both arguments are at most.
pub get_higher_status-le :
    (a b c : ModificationType)
    → get_modification_type_order a ≤ get_modification_type_order c
    → get_modification_type_order b ≤ get_modification_type_order c
    → get_modification_type_order (get_higher_status a b) ≤ get_modification_type_order c
unfolding get_higher_status
get_higher_status-le a b c h k = ground arith
