-- ===== src/Db/Driver.antt =====
-- pyodbc as a parameter, with the calls that the program makes of it kept in a trace; and `connect`
-- of db/connection.py.
use query_smith.Prelude.{String, ◌<>◌, Bool, List, [], ◌∷◌, ◌++◌}
use query_smith.Prelude.Int.{ℤ}
use query_smith.Prelude.Outcome
use query_smith.Prelude.Outcome.{Exn, Outcome, ok, err, pyodbc_error, db_capture_error}
use query_smith.Float.{Float}
use query_smith.Db.Connection.{ConnectionParams, build_connection_string}

-- A value of a row: a `str`, `None`, or another type's.
pub data Cell : Type 0 where
  str : String → Cell
  null other : Cell

-- What successive `fetchone` calls give: rows up to the end, or up to an exception.
pub data Rows : Type 0 where
  end : Rows
  broken : Exn → Rows
  row : List Cell → Rows → Rows

-- The result sets of an executed statement, as the cursor walks them: has the set a description,
-- its rows, and what `nextset` does, which ends it, raises, or goes on to the next set.
pub data ResultSets : Type 0 where
  last : Bool → Rows → ResultSets
  lost : Bool → Rows → Exn → ResultSets
  more : Bool → Rows → ResultSets → ResultSets

pub record Driver : Type 1 where
  pub Connection : Type 0
  pub connect : String → ℤ → Outcome Connection
  -- `connection.timeout = n`
  pub set_timeout : Connection → ℤ → Outcome Connection
  -- `connection.cursor()`
  pub cursor : Connection → Outcome (Unit {0})
  -- `cursor.execute(statement)`
  pub execute : Connection → String → Outcome ResultSets
  pub close : Connection → Outcome (Unit {0})

-- The calls that reach the server or release a connection.
pub data Event : Type 0 where
  opened : Event
  executed : String → Event
  closed : Event

-- A computation with the calls that it has made.
abbrev pub Traced {ℓ} : Type ℓ → Type ℓ
Traced A = List Event × Outcome A

module _ {ℓ κ} {A : Type ℓ} {B : Type κ} where
  abbrev pub continue : List Event → Outcome A → (A → Traced B) → Traced B
  continue events (ok a) f = let (later, r) = f a in (events ++ later, r)
  continue events (err e) f = (events, err e)

  infixl 5 ◌>>=◌ ◌>>◌
  abbrev pub ◌>>=◌ : Traced A → (A → Traced B) → Traced B
  (events, r) >>= f = continue events r f

  abbrev pub ◌>>◌ : Traced A → Traced B → Traced B
  m >> k = m >>= λ _. k

module _ {ℓ} {A : Type ℓ} where
  abbrev pub lift : Outcome A → Traced A
  lift r = ([], r)

  -- `except pyodbc.Error as exc: raise DBCaptureError(…) from exc`
  abbrev pub or_captured : String → Outcome A → Outcome A
  or_captured context (err (pyodbc_error message)) = err (db_capture_error (context <> message))
  or_captured context r = r

  -- An exception in a `finally` block replaces the outcome.
  abbrev pub after : Outcome (Unit {0}) → Outcome A → Outcome A
  after (ok _) r = r
  after (err e) r = err e

module _ (d : Driver) where
  open d use {Connection}

  -- `try: … finally: connection.close()`
  unfoldable pub closing {ℓ} : {A : Type ℓ} → Connection → Traced A → Traced A
  closing connection (events, r) = (events ++ closed ∷ [], after (d.close connection) r)

  unfoldable pub execute : Connection → String → Traced ResultSets
  execute connection statement = (executed statement ∷ [], d.execute connection statement)

  connect_at : String → Outcome ℤ → Outcome Connection
  connect_at conn_str (err e) = err e
  connect_at conn_str (ok timeout) =
      Outcome.◌>>=◌ (or_captured "Failed to connect to SQL Server: " (d.connect conn_str timeout))
        λ connection. d.set_timeout connection timeout

  module _ {F : Type 0} ⦃fl : Float F⦄ where
    -- `connect`
    unfoldable pub connect : ConnectionParams F → Outcome Connection
    unfolding connect_at build_connection_string
    connect p = connect_at (build_connection_string p) (fl.round p.timeout_s)
