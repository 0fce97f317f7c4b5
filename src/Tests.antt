-- ===== src/Tests.antt =====
-- The theorems at concrete inputs, and runs of the code that can be followed in the source.
mod Data
mod Pool
mod Handlers
mod Admins
mod Store
mod Codecs
mod Caches
mod Fronts
mod Cleaning
mod Trusts
mod Admission
mod Routes
mod Rounds
mod Starts
mod Timed
