-- ===== src/Jobs/Precedence.antt =====
-- The order of LEASE_SQL is a strict order.
use smart_email_manager.Prelude.{◌≡◌, true, false, arith, StrictOrder}
use smart_email_manager.Jobs.Model.{Job, JobItem}
use smart_email_manager.Jobs.Queue.Claim.{precedes}

precedes_trans :
    (a b c : JobItem × Job) → precedes a b ≡ true → precedes b c ≡ true → precedes a c ≡ true
unfolding precedes
precedes_trans a b c h k = ground arith

precedes_irrefl : (a : JobItem × Job) → precedes a a ≡ false
unfolding precedes
precedes_irrefl a = ground arith

pub precedes-StrictOrder : StrictOrder precedes
precedes-StrictOrder = record { irrefl = precedes_irrefl; trans = precedes_trans }
