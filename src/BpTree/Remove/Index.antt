-- ===== src/BpTree/Remove/Index.antt =====
-- bptree.cpp: what `remove` does to the index.
use computer_science_notes.Base.{ℕ, ◌<◌, ◌≡◌, refl, ◌∙◌, true, done, arith}
use computer_science_notes.BpTree.Node.{File}
use computer_science_notes.BpTree.Shape.{Index, key_limit}
use computer_science_notes.BpTree.Refinement.{IsIndex}
use computer_science_notes.BpTree.Remove.Down.{remove}
use computer_science_notes.BpTree.Remove.Entry.{erase}
use computer_science_notes.BpTree.Remove.Roomy.{is_roomy}
use computer_science_notes.BpTree.Remove.Way.{remove_pos-Holds}

-- On a file that holds an index, `remove` returns a file that holds the index without the key, if the
-- way to the key, no longer than the fuel, passes nodes with keys only, and each child that it goes to
-- has more than MAX_KEY / 2 keys, or is a leaf whose brother has as many; where the key is itself a
-- separator, the child is a leaf with more than MAX_KEY / 2 keys.
pub remove-IsIndex :
    (f : File) (m : Index) (height fuel k : ℕ)
    → IsIndex f m height
    → k < key_limit
    → is_roomy fuel f k 0 ≡ true
    → (f' : File) × (remove fuel f k ≡ done f') × IsIndex f' (erase m k) height
unfolding remove
remove-IsIndex f m height fuel k is lt roomy =
    let s = is.shape in
    let r =
      remove_pos-Holds fuel f is.labels m s k 0 (is.labels.level 0) refl s.root
        (omega (arith, s.lowest), omega (arith, s.highest))
        (λ x j live up. absurd (omega (arith, (s.fits x live).under))) roomy in
    (r.file, r.result, record { labels = r.labels; shape = r.shape; tall = r.tall ∙ is.tall })
