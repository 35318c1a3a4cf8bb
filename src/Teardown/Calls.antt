-- ===== src/Teardown/Calls.antt =====
-- What a program may have done to the cluster, as a step relation on the log of calls.
use mathlib.Core.List.{◌++◌, append-nil}
use pulse_operator.Prelude.{Bool, true, List, [], ◌∷◌, ◌≡◌, refl, ap, ◌∙◌}
use pulse_operator.Cluster.{Stored, Ref, get, create, update, delete, Log, found, Cluster}

-- The refs that a log reads, in order.
unfoldable pub gets : Log → List Ref
gets [] = []
gets (get r ∷ log) = r ∷ gets log
gets (_ ∷ log) = gets log

-- The refs that a log deletes, in order.
unfoldable pub deletes : Log → List Ref
deletes [] = []
deletes (delete r ∷ log) = r ∷ deletes log
deletes (_ ∷ log) = deletes log

pub gets-append : (xs ys : Log) → gets (xs ++ ys) ≡ gets xs ++ gets ys
unfolding gets
gets-append [] ys = refl
gets-append (get r ∷ xs) ys = ap (λ l. r ∷ l) (gets-append xs ys)
gets-append (create r ∷ xs) ys = gets-append xs ys
gets-append (update r ∷ xs) ys = gets-append xs ys
gets-append (delete r ∷ xs) ys = gets-append xs ys

pub gets-read : (log : Log) (r : Ref) → gets (log ++ get r ∷ []) ≡ gets log ++ r ∷ []
unfolding gets
gets-read log r = gets-append log (get r ∷ [])

pub gets-removed :
    (log : Log) (r : Ref) → gets ((log ++ get r ∷ []) ++ delete r ∷ []) ≡ gets log ++ r ∷ []
unfolding gets
gets-removed log r =
    gets-append (log ++ get r ∷ []) (delete r ∷ []) ∙ (append-nil _ ∙ gets-read log r)

-- `Careful before after`: between the two logs the program only reads objects, and deletes an
-- object only right after a read of it whose answer passes the test.
pub data Careful (cluster : Cluster) (mine : Stored → Bool) (log : Log) : Log → Type 0 where
  done : Careful cluster mine log log
  asked :
      (m : Log) (r : Ref) → Careful cluster mine log m → Careful cluster mine log (m ++ get r ∷ [])
  removed :
      (m : Log) (r : Ref) (s : Stored)
      → Careful cluster mine log m
      → cluster.on_get m r ≡ found s
      → mine s ≡ true
      → Careful cluster mine log ((m ++ get r ∷ []) ++ delete r ∷ [])

module _ (cluster : Cluster) (mine : Stored → Bool) where
  pub careful_trans :
      (a b c : Log) → Careful cluster mine a b → Careful cluster mine b c → Careful cluster mine a c
  careful_trans a b c h done = h
  careful_trans a b c h (asked m r k) = asked m r (careful_trans a b m h k)
  careful_trans a b c h (removed m r s k e t) = removed m r s (careful_trans a b m h k) e t
