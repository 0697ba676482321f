-- ===== src/Suite/Verified.antt =====
-- The unit tests of the repository pass on the model.
use Prim.Native.String.{String}
