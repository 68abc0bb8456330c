-- ===== src/Rl.antt =====
-- controller/src/rl_feedback_loop: rewards, the replay buffer and its export.
pub mod Reward
pub mod Store
pub mod Export
