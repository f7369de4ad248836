-- ===== src/Quotas/Allocation.antt =====
-- Whose allocation a quota changes: modules/quotas/service.py, `set_user_quota`.
use ragz.Prelude.{Option}
use mathlib.Core.Option
