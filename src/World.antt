-- ===== src/World.antt =====
-- What the code meets outside itself and shares between its parts: the context of a run. Calls
-- move the state `W` of the world on, so a later call of one function may answer otherwise.
use recipe_reader.Common.{Option, none}
use recipe_reader.Errors.{Error}

-- context.Context, as far as it can end a run: `ctx.Err()`.
pub record Context (W : Type 0) : Type 0 where
  pub err : W → Option Error × W

-- `context.Background()`
abbrev pub background : {W : Type 0} → Context W
background = record { err = λ w. (none, w) }
