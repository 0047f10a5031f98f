-- ===== src/Player.antt =====
-- components/lightsnapcast/player.c: the player.
pub mod Memory
pub mod Settings
pub mod Chunks
pub mod Clock
pub mod Takeover
pub mod Timer
pub mod Sync
pub mod Dma
pub mod Apll
pub mod Channel
pub mod Stop
pub mod Playback
pub mod Silence
pub mod Preload
pub mod Steer
pub mod Sound
