-- ===== src/Tests.antt =====
-- Runs of the models at concrete inputs.
mod Sorting
mod Typing
mod Texts
mod Trees
mod Coroutines
mod Checking
mod Loading
