-- ===== src/Tests.antt =====
-- Runs of the model on concrete messages.
mod Samples
mod Names
mod Records
mod Replies
mod Scans
mod Tags
mod Lists
mod Loads
mod Batches
mod Caches
mod Sets
