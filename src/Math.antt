-- ===== src/Math.antt =====
-- clusterman/math/piecewise.py: the piecewise constant functions of the simulator.
pub mod SortedDict
pub mod Piecewise
mod Examples
