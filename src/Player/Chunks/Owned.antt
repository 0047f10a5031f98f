-- ===== src/Player/Chunks/Owned.antt =====
-- Every chunk of components/lightsnapcast/player.c is freed once, or held by the queue or by the player's
-- task.
use snapclient.Base.{ℕ, ◌+◌, ◌≡◌, refl, ◌∙◌, Bool, false, Option, none, some, List, [], ◌∷◌, arith}
use snapclient.Rtos.{Queue, IsQueue}
use snapclient.Player.Memory.{PcmChunk}
use snapclient.Player.Settings.{SnapcastSetting, SettingsState}
use snapclient.Player.Chunks.{
  PlayerState, Drivers, free_if_taken, destroy_pcm_queue, insert_pcm_chunk, take_chunk,
}
use snapclient.Player.Chunks.Counting.{
  count, to_list, queued, owned, insert-owned, take-owned, free-owned,
}
use snapclient.Player.Takeover.{Task, player_after, adopt_settings}
use snapclient.Player.Takeover.Kept.{adopt_settings-here}
use snapclient.Player.Chunks.Drained.{destroy-owned}

-- The player and the chunk in the hands of its task, with all the chunks that the client's task gave to it.
pub record Life (Q M : Type 0) : Type 0 where
  pub player : PlayerState Q M
  pub held : Option PcmChunk
  pub given : List PcmChunk

-- The client's task gives a chunk or tells of other settings. The player's task takes a chunk if it has none,
-- frees the one that it has, deletes the queue or takes over other settings.
pub data Step {Q M : Type 0} (queue : Queue PcmChunk Q) (drivers : Drivers M) (l : Life Q M)
    : Life Q M → Type 0 where
  insert :
      (full : Bool) (c : PcmChunk)
      → Step queue drivers l (record l {
        player = (insert_pcm_chunk queue drivers full c l.player).1;
        given = c ∷ l.given;
      })
  take : Step queue drivers l (record l {
    held = (take_chunk queue l.held l.player).0;
    player = (take_chunk queue l.held l.player).1;
  })
  release : Step queue drivers l (record l { held = none; player = free_if_taken l.held l.player })
  destroy :
      (fuel code : ℕ) (s : PlayerState Q M)
      → destroy_pcm_queue queue fuel l.player ≡ some (code, s)
      → Step queue drivers l (record l { player = s })
  settings :
      (s : SettingsState M)
      → Step queue drivers l (record l { player = record l.player { settings = s } })
  -- The task takes other settings over.
  adopt :
      (fuel : ℕ) (setting : SnapcastSetting) (t : Task)
      → Step queue drivers l (record l {
        player = player_after l.player (adopt_settings queue drivers fuel setting t l.player);
      })

pub data Reach {Q M : Type 0} (queue : Queue PcmChunk Q) (drivers : Drivers M)
    : Life Q M → Type 0 where
  start :
      (s : SettingsState M)
      → Reach queue drivers (record {
        player = record {
          queue = none;
          started = false;
          settings = s;
          freed = [];
          freed_fragments = [];
        };
        held = none;
        given = [];
      })
  later :
      {l l' : Life Q M} → Reach queue drivers l → Step queue drivers l l' → Reach queue drivers l'

module _ {Q M : Type 0} (queue : Queue PcmChunk Q) (items : Q → List PcmChunk) where
  Step-owned :
      (drivers : Drivers M) (test : PcmChunk → Bool) {l l' : Life Q M}
      → IsQueue queue items
      → Step queue drivers l l'
      → owned items test l.player l.held ≡ count test l.given
      → owned items test l'.player l'.held ≡ count test l'.given
  unfolding count destroy_pcm_queue
  Step-owned drivers test {l} law (insert full c) h =
      omega (arith, h, insert-owned queue items drivers full c test l.player law)
  Step-owned drivers test {l} law take h = take-owned queue items test l.held l.player law ∙ h
  Step-owned drivers test {l} law release h = free-owned queue items test l.held l.player ∙ h
  Step-owned drivers test {l} law (destroy fuel code s e) h =
      omega
        (arith, h, destroy-owned queue items test fuel code l.player s l.player.queue law e refl)
  Step-owned drivers test {l} law (settings s) h = h
  Step-owned drivers test {l} law (adopt fuel setting t) h =
      omega (arith, h, adopt_settings-here queue items drivers test fuel setting t l.player law)

  -- Whatever the two tasks do, and in whatever order: each chunk that was given to the player is once among
  -- those that it freed, that wait in its queue or that its task holds, and these are no others.
  pub Reach-owned :
      (drivers : Drivers M) (test : PcmChunk → Bool) (l : Life Q M)
      → IsQueue queue items
      → Reach queue drivers l
      → count test l.player.freed
          + count test (queued items l.player.queue)
          + count test (to_list l.held)
        ≡ count test l.given
  unfolding count
  Reach-owned drivers test l law (start s) = refl
  Reach-owned drivers test l law (later r step) =
      Step-owned drivers test law step (Reach-owned drivers test _ law r)
