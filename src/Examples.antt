-- ===== src/Examples.antt =====
-- Runs of the theorems on concrete inputs, by component.
pub mod Bytes
pub mod Messages
pub mod Headers
pub mod Chunks
pub mod Memory
pub mod Network
pub mod Player
pub mod Sound
pub mod Tasks
pub mod Greeting
pub mod Settings
pub mod Flac
pub mod Handlers
pub mod Web
pub mod Dsp
use snapclient.Base.{ℕ, List, [], ◌∷◌, Option, none, some, refl}
use snapclient.Parser.Source.{Feeds}

-- A source that holds the bytes that are still to come.
abbrev pub next_of : List ℕ → Option ℕ × List ℕ
next_of [] = (none, [])
next_of (b ∷ bs) = (some b, bs)

pub next_of-Feeds : (bs : List ℕ) → Feeds next_of bs bs []
next_of-Feeds [] = refl
next_of-Feeds (b ∷ bs) = (refl, next_of-Feeds bs)
