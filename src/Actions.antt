-- ===== src/Actions.antt =====
-- How an action is admitted, sent and tracked: src/nttd/actions and the vocabulary of
-- src/nttd/constants.py.
pub mod Vocabulary
pub mod Gate
pub mod Reply
pub mod Tracker
