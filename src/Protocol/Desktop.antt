-- ===== src/Protocol/Desktop.antt =====
-- What the server asks of internal/desktop: the operations `Copy`, `Paste` and `OpenURL`, over the
-- state `W` of the local desktop. An error is its text.
use slush.Base.{Result}
use slush.Text.{Bytes}

pub record Desktop (W : Type 0) : Type 0 where
  pub copy : Bytes → W → W × Result Bytes (Unit {0})
  pub paste : W → W × Result Bytes Bytes
  pub open_url : Bytes → W → W × Result Bytes (Unit {0})
