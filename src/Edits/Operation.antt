-- ===== src/Edits/Operation.antt =====
-- app/schemas/edit.py: the discriminated union of edit operations, with their parameters.
use media_player.Prelude.{ℕ, Option}
use media_player.Prelude.Int.{ℤ}

-- A JSON value where a number is wanted: an int, a float (in millionths, exact), anything else.
pub data Value : Type 0 where
  int : ℤ → Value
  float : ℤ → Value
  other : Value

pub data Axis : Type 0 where
  horizontal vertical : Axis

pub data Format : Type 0 where
  mkv mp3 : Format

pub data Preset : Type 0 where
  bw warm cool vintage vivid : Preset

-- One constructor for each `…Operation` class; `speed` in hundredths, exact for its steps of 0.25.
pub data Operation : Type 0 where
  clip : Value → Value → Operation
  crop : Value → Value → Value → Value → Operation
  rotate : ℕ → Operation
  flip : Axis → Operation
  downscale : Value → Operation
  upscale : Value → Operation
  adjust : Option ℤ → Option ℤ → Option ℤ → Option ℤ → Operation
  preset : Preset → Operation
  speed : ℕ → Operation
  convert : Format → Operation

-- `operation`, the discriminator.
pub data OperationName : Type 0 where
  clip crop rotate flip downscale upscale adjust preset speed convert : OperationName

unfoldable pub name_of : Operation → OperationName
name_of (Operation.clip _ _) = OperationName.clip
name_of (Operation.crop _ _ _ _) = OperationName.crop
name_of (Operation.rotate _) = OperationName.rotate
name_of (Operation.flip _) = OperationName.flip
name_of (Operation.downscale _) = OperationName.downscale
name_of (Operation.upscale _) = OperationName.upscale
name_of (Operation.adjust _ _ _ _) = OperationName.adjust
name_of (Operation.preset _) = OperationName.preset
name_of (Operation.speed _) = OperationName.speed
name_of (Operation.convert _) = OperationName.convert
