-- ===== src/Txn/Probes.antt =====
-- When a DNS probe is asked for, and what its answer does (D25 in rust/src/ops/txn.rs).
use zte_u60_pro_mu5250_data.Txn.Types.{Txn}
